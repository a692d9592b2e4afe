-- ===== src/Join/Reach/Ends.antt =====
-- The keys of the tables at both ends of the relationships (semantic/join.go).
use mathlib.Core.List.Memᴰ
use dux.Base.{◌*◌, List, [], ◌∷◌, to_lower, length, ◌≡◌, ap, Memᴰ, arith}
use dux.Schema.{Schema, Relationship}
use dux.Join.{resolve_table}
use dux.Join.Reach.{ends}

pub mem-ends :
    (schema : Schema) (rel : Relationship) (rels : List Relationship)
    → Memᴰ rel rels
    → Memᴰ (to_lower (resolve_table schema rel.from_table)) (ends schema rels)
      × Memᴰ (to_lower (resolve_table schema rel.to_table)) (ends schema rels)
unfolding ends
mem-ends schema rel [] m = absurd (Memᴰ.not-nil m)
mem-ends schema rel (r ∷ rels) (Memᴰ.head e) = (
  Memᴰ.head (ap (λ (x : Relationship). to_lower (resolve_table schema x.from_table)) e),
  Memᴰ.tail (Memᴰ.head (ap (λ (x : Relationship). to_lower (resolve_table schema x.to_table)) e)),
)
mem-ends schema rel (r ∷ rels) (Memᴰ.tail m) =
    let (a, b) = mem-ends schema rel rels m in (Memᴰ.tail (Memᴰ.tail a), Memᴰ.tail (Memᴰ.tail b))

pub length-ends :
    (schema : Schema) (rels : List Relationship) → length (ends schema rels) ≡ 2 * length rels
unfolding ends
length-ends schema [] = omega arith
length-ends schema (rel ∷ rels) = omega (arith, length-ends schema rels)
