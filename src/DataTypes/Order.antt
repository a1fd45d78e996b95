-- ===== src/DataTypes/Order.antt =====
-- Sorting the fields of a structure: they come out as they lie in memory, however they were added.
use mathlib.Core.List.{Permᴰ}
use mathlib.Core.Path.{subst}
use open62541pp.Prelude.{
  ℕ, ◌+◌, ◌^◌, ◌≤◌, ◌<◌, ◌≡◌, ◌≢◌, refl, sym, ap, ◌∙◌, List, [], ◌∷◌, All, arith,
}
use open62541pp.DataTypes.{Field, insert_field, sort_fields}

-- The fields follow each other inside a structure, from `end` on, with gaps that are smaller than
-- `limit`; each has a size.
abbrev pub FollowFrom : ℕ → ℕ → List Field → Type 0
FollowFrom limit end [] = Unit
FollowFrom limit end (f ∷ fields) =
    (end ≤ f.offset)
    × (f.offset < end + limit)
    × (0 < f.size)
    × (f.offset + f.size < 2 ^ 64)
    × FollowFrom limit (f.offset + f.size) fields

abbrev AreDistinct : List Field → Type 0
AreDistinct [] = Unit
AreDistinct (f ∷ fields) = All (λ g. f.offset ≢ g.offset) fields × AreDistinct fields

All-perm : (P : Field → Type 0) {l k : List Field} → Permᴰ l k → All P l → All P k
All-perm P Permᴰ.nil all = tt
All-perm P (Permᴰ.cons same p) (first, all) = (subst P same first, All-perm P p all)
All-perm P (Permᴰ.swap {l = l} same other) (first, (second, all)) =
    (subst P other second, (subst P same first, all))
All-perm P (Permᴰ.trans p q) all = All-perm P q (All-perm P p all)

AreDistinct-perm : {l k : List Field} → Permᴰ l k → AreDistinct l → AreDistinct k
AreDistinct-perm Permᴰ.nil distinct = tt
AreDistinct-perm (Permᴰ.cons {l₂ = k} same p) (apart, distinct) = (
  subst (λ f. All (λ g. f.offset ≢ g.offset) k) same (All-perm _ p apart),
  AreDistinct-perm p distinct,
)
AreDistinct-perm (Permᴰ.swap {a = a} {b = b} {l = l} same other) ((apart, all), (all', distinct)) =
    (
      (
        λ e. apart (ap (λ f. f.offset) same ∙ sym e ∙ sym (ap (λ f. f.offset) other)),
        subst (λ f. All (λ g. f.offset ≢ g.offset) l) other all',
      ),
      (subst (λ f. All (λ g. f.offset ≢ g.offset) l) same all, distinct),
    )
AreDistinct-perm (Permᴰ.trans p q) distinct = AreDistinct-perm q (AreDistinct-perm p distinct)

insert_field_comm :
    (f g : Field) (fields : List Field)
    → f.offset ≢ g.offset
    → insert_field f (insert_field g fields) ≡ insert_field g (insert_field f fields)
unfolding insert_field
insert_field_comm f g [] apart = ground (arith, apart)
insert_field_comm f g (h ∷ fields) apart = ground (arith, apart, insert_field_comm f g fields apart)

sort_fields-perm : {l k : List Field} → Permᴰ l k → AreDistinct l → sort_fields l ≡ sort_fields k
unfolding sort_fields
sort_fields-perm Permᴰ.nil distinct = refl
sort_fields-perm (Permᴰ.cons {a = a} {l₂ = k} same p) (apart, distinct) =
    ap (insert_field a) (sort_fields-perm p distinct)
    ∙ ap (λ f. insert_field f (sort_fields k)) same
sort_fields-perm (Permᴰ.swap {a = a} {b = b} {a' = a'} {l = l} same other) ((apart, all), _) =
    insert_field_comm a b (sort_fields l) apart
    ∙ ap (λ f. insert_field f (insert_field a (sort_fields l))) other
    ∙ ap (λ f. insert_field a' (insert_field f (sort_fields l))) same
sort_fields-perm (Permᴰ.trans p q) distinct =
    sort_fields-perm p distinct ∙ sort_fields-perm q (AreDistinct-perm p distinct)

FollowFrom-apart :
    (limit end offset : ℕ) (fields : List Field)
    → FollowFrom limit end fields
    → offset < end
    → All (λ g. offset ≢ g.offset) fields
FollowFrom-apart limit end offset [] follow before = tt
FollowFrom-apart limit end offset (f ∷ fields) (behind, near, sized, small, follow) before = (
  λ e. omega (arith, e),
  FollowFrom-apart limit (f.offset + f.size) offset fields follow (omega arith),
)

FollowFrom-AreDistinct :
    (limit end : ℕ) (fields : List Field) → FollowFrom limit end fields → AreDistinct fields
FollowFrom-AreDistinct limit end [] follow = tt
FollowFrom-AreDistinct limit end (f ∷ fields) (behind, near, sized, small, follow) = (
  FollowFrom-apart limit (f.offset + f.size) f.offset fields follow (omega arith),
  FollowFrom-AreDistinct limit (f.offset + f.size) fields follow,
)

sort_fields-in_order :
    (limit end : ℕ) (fields : List Field)
    → FollowFrom limit end fields
    → sort_fields fields ≡ fields
unfolding sort_fields insert_field
sort_fields-in_order limit end [] follow = refl
sort_fields-in_order limit end (f ∷ []) follow = refl
sort_fields-in_order limit end (f ∷ g ∷ fields) (behind, near, sized, small, follow) =
    ap (insert_field f) (sort_fields-in_order limit (f.offset + f.size) (g ∷ fields) follow)
    ∙ ground (arith, follow.0)

-- Fields that follow each other in memory as in `layout` are sorted to it, in whatever order they
-- were added.
pub sort_fields-layout :
    (limit end : ℕ) (layout fields : List Field)
    → FollowFrom limit end layout
    → Permᴰ layout fields
    → sort_fields fields ≡ layout
sort_fields-layout limit end layout fields follow p =
    sym (sort_fields-perm p (FollowFrom-AreDistinct limit end layout follow))
    ∙ sort_fields-in_order limit end layout follow
