-- ===== src/Tests/Bodies.antt =====
-- The merge of an override into a request body.
use llmproxy.Common.{◌≡◌, refl, some, true}
use llmproxy.Common.Int.{pos}
use llmproxy.Json.{Fields, num, str, bool, obj, end, field, find, assign, HasKeys}
use llmproxy.Override.{deep_merge, merged, find-deep_merge}

abbrev body : Fields
body = field "model" (str "m") (field "options" (obj (field "top_k" (num (pos 4) 0) end)) end)

abbrev override : Fields
override = field "options" (obj (field "seed" (num (pos 1) 0) end)) (field "stream" (bool true) end)

override-HasKeys : HasKeys override
unfolding find
override-HasKeys = (refl, (refl, tt))

merge_run :
    find "options" (deep_merge body override)
    ≡ some (obj (field "top_k" (num (pos 4) 0) (field "seed" (num (pos 1) 0) end)))
unfolding deep_merge find assign
merge_run = refl

find-deep_merge_example :
    find "options" (deep_merge body override)
    ≡ merged (find "options" body) (find "options" override)
find-deep_merge_example = find-deep_merge "options" body override override-HasKeys
