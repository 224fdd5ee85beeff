-- ===== src/Utils/Prune/Tests.antt =====
-- Pruning at concrete values.
use mc_gantry.Base.{◌≡◌, refl, codes, [], false}
use mc_gantry.Base.Int.{pos}
use mc_gantry.Utils.Json.{null, bool, num, str, arr, obj, nil, cons, Fields, end, field}
use mc_gantry.Utils.Prune.{prune_empty}
use mc_gantry.Utils.Prune.Laws.{FullFields, prune_empty-Full, contents_fields, contents-prune_empty}

abbrev form : Fields
form = field (codes "title") (str []) (
    field (codes "replicas") (num (pos 0)) (
      field (codes "public") (bool false) (
        field (codes "links") (arr (cons null (cons (obj end) nil)))
          (field (codes "owner") (obj (field (codes "team") (str (codes "pay")) end)) end))))

prune_test :
    prune_empty form
    ≡ field (codes "replicas") (num (pos 0)) (
        field
          (codes "public")
          (bool false)
          (field (codes "owner") (obj (field (codes "team") (str (codes "pay")) end)) end))
unfolding prune_empty
prune_test = refl

prune_empty-Full_example : FullFields (prune_empty form)
prune_empty-Full_example = prune_empty-Full form

contents-prune_empty_example : contents_fields [] (prune_empty form) ≡ contents_fields [] form
contents-prune_empty_example = contents-prune_empty form
