-- ===== src/Metric/Keys.antt =====
-- internal/metric/collector.go: the identity of a metric. Tags are the entries of a Go map, in the
-- order of a `range`.
use Prim.Native.String.{◌++◌}
use vuhive.Prelude.{sort_by, String, List, [], ◌∷◌, Bool, str_eq, ◌&&◌, ◌≡◌, refl}

abbrev pub Tags : Type 0
Tags = List (String × String)

pub record MetricKey : Type 0 where
  pub name : String
  pub tags_key : String

-- The equality of Go structs.
abbrev pub key_eq : MetricKey → MetricKey → Bool
key_eq a b = str_eq a.name b.name && str_eq a.tags_key b.tags_key

-- sort.Strings, on the keys with their values.
sort_tags : Tags → Tags
sort_tags = sort_by (λ e. e.0)

-- The builder's loop; every entry but the first is preceded by a comma.
join_tags : Tags → String
join_tags [] = ""
join_tags ((k, v) ∷ []) = k ++ ("=" ++ v)
join_tags ((k, v) ∷ f ∷ rest) = k ++ ("=" ++ (v ++ ("," ++ join_tags (f ∷ rest))))

unfoldable pub sorted_tags_key : Tags → String
unfolding sort_tags join_tags
sorted_tags_key [] = ""
sorted_tags_key ((k, v) ∷ []) = k ++ ("=" ++ v)
sorted_tags_key (e ∷ f ∷ rest) = join_tags (sort_tags (e ∷ f ∷ rest))

unfoldable pub make_key : String → Tags → MetricKey
make_key name [] = record { name = name; tags_key = "" }
make_key name ((k, v) ∷ []) = record { name = name; tags_key = k ++ ("=" ++ v) }
make_key name (e ∷ f ∷ rest) = record { name = name; tags_key = sorted_tags_key (e ∷ f ∷ rest) }

-- For any metric name and any values v and w: the tags {a: "v,b=w"} and the tags {a: v, b: w} get the
-- same key, so `make_key` does not tell two different sets of tags apart.
make_key_collides :
    (name v w : String)
    → make_key name (("a", v ++ ("," ++ ("b" ++ ("=" ++ w)))) ∷ [])
      ≡ make_key name (("a", v) ∷ ("b", w) ∷ [])
unfolding make_key sorted_tags_key sort_tags join_tags
make_key_collides name v w = refl
