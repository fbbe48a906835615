-- ===== src/Proxy/Server/Regions/Named.antt =====
-- The regions by their names: one for each name, and what adding a region to them changes.
use unroxy.Base.{
  true, false, Option, none, some, List, [], ◌∷◌, find, ◌≡◌, ◌↔◌, refl, sym, ap, ◌∙◌, arith,
  Bool-cases, inl, inr,
}
use unroxy.Base.Text.{Text, text_eq, text_eq_iff, to_ascii_lowercase, eq_ignore_ascii_case}
use unroxy.Proxy.Pool.{Protocol}
use unroxy.Proxy.Server.Regions.{
  Heap, Region, Proxy, add, region_pool, region_forward, protocols, add_variants, add_to,
  add_region,
}

-- Names that agree but for the case of ASCII letters.
pub same_name_iff :
    (s t : Text) → (eq_ignore_ascii_case s t ≡ true) ↔ (to_ascii_lowercase s ≡ to_ascii_lowercase t)
unfolding eq_ignore_ascii_case
same_name_iff s t = text_eq_iff (to_ascii_lowercase s) (to_ascii_lowercase t)

same_name_sym : (s t : Text) → eq_ignore_ascii_case s t ≡ eq_ignore_ascii_case t s
same_name_sym s t = elim (Bool-cases (eq_ignore_ascii_case s t)) [
  | inl e ↦ e ∙ sym ((same_name_iff t s).1 (sym ((same_name_iff s t).0 e)))
  | inr e ↦ elim (Bool-cases (eq_ignore_ascii_case t s)) [
    | inr f ↦ e ∙ sym f
    | inl f ↦ (same_name_iff s t).1 (sym ((same_name_iff t s).0 f)) ∙ sym f
  ]
]

same_name-left :
    (s t u : Text)
    → eq_ignore_ascii_case s t ≡ true
    → eq_ignore_ascii_case s u ≡ eq_ignore_ascii_case t u
unfolding eq_ignore_ascii_case
same_name-left s t u e = ap (λ l. text_eq l (to_ascii_lowercase u)) ((same_name_iff s t).0 e)

same_name_trans :
    (s t u : Text)
    → eq_ignore_ascii_case t u ≡ true
    → eq_ignore_ascii_case s t ≡ eq_ignore_ascii_case s u
same_name_trans s t u h = same_name_sym s t ∙ same_name-left t u s h ∙ same_name_sym u s

-- The first region of a name, which may be empty.
abbrev pub named : Text → List Region → Option Region
named username regions = find (λ r. eq_ignore_ascii_case r.username username) regions

-- No two regions have the same name, in letters of either case.
abbrev pub DistinctNames : List Region → Type 0
DistinctNames [] = Unit
DistinctNames (r ∷ regions) = (named r.username regions ≡ none) × DistinctNames regions

pub add_variants-username :
    (ps : List Protocol) (region existing : Region) (heap : Heap)
    → (add_variants ps region existing heap).0.username ≡ existing.username
unfolding add_variants add
add_variants-username [] region existing heap = refl
add_variants-username (p ∷ ps) region existing heap =
    let (pool, heap') = region_pool (some p) region heap in
    let (existing', heap'') = add p pool (region_forward (some p) region) existing heap' in
    add_variants-username ps region existing' heap''

pub named-add_to_other :
    (u : Text) (regions : List Region) (region : Region) (heap : Heap)
    → eq_ignore_ascii_case region.username u ≡ false
    → named u (add_to regions region heap).0 ≡ named u regions
unfolding add_to
named-add_to_other u [] region heap h = rw (h) refl
named-add_to_other u (r ∷ regions) region heap h =
    let merged = (add_variants (protocols region) region r heap).0 in
    elim (Bool-cases (eq_ignore_ascii_case r.username region.username)) [
      | inl e ↦
          let other = same_name-left r.username region.username u e ∙ h in
          rw (e, add_variants-username (protocols region) region r heap, other) refl
      | inr e ↦ elim (Bool-cases (eq_ignore_ascii_case r.username u)) [
        | inl f ↦ rw (e, f) refl
        | inr f ↦ rw (e, f) (named-add_to_other u regions region heap h)
      ]
    ]

-- A name that no region has is given to the new one.
pub named-add_to_new :
    (u : Text) (regions : List Region) (region : Region) (heap : Heap)
    → eq_ignore_ascii_case region.username u ≡ true
    → named u regions ≡ none
    → named u (add_to regions region heap).0 ≡ some region
unfolding add_to
named-add_to_new u [] region heap h n = rw (h) refl
named-add_to_new u (r ∷ regions) region heap h n =
    elim (Bool-cases (eq_ignore_ascii_case r.username u)) [
      | inl f ↦ ground (arith, f, n)
      | inr f ↦
          rw (same_name_trans r.username region.username u h ∙ f, f)
            (named-add_to_new u regions region heap h (ground (arith, f, n)))
    ]

-- The region of the name takes over the variants of the new one.
pub named-add_to_known :
    (u : Text) (regions : List Region) (region known : Region) (heap : Heap)
    → eq_ignore_ascii_case region.username u ≡ true
    → named u regions ≡ some known
    → named u (add_to regions region heap).0
      ≡ some (add_variants (protocols region) region known heap).0
unfolding add_to
named-add_to_known u [] region known heap h n = ground arith
named-add_to_known u (r ∷ regions) region known heap h n =
    let same = same_name_trans r.username region.username u h in
    elim (Bool-cases (eq_ignore_ascii_case r.username u)) [
      | inl f ↦
          let e = same ∙ f in
          let is_known : r ≡ known = ground (arith, f, n) in
          rw (e, add_variants-username (protocols region) region r heap, f)
            (ap (λ k. some (add_variants (protocols region) region k heap).0) is_known)
      | inr f ↦
          rw (same ∙ f, f) (named-add_to_known u regions region known heap h (ground (arith, f, n)))
    ]

add_to-DistinctNames :
    (regions : List Region) (region : Region) (heap : Heap)
    → DistinctNames regions
    → DistinctNames (add_to regions region heap).0
unfolding add_to
add_to-DistinctNames [] region heap h = (refl, tt)
add_to-DistinctNames (r ∷ regions) region heap (n, h) =
    elim (Bool-cases (eq_ignore_ascii_case r.username region.username)) [
      | inl e ↦ rw (e, add_variants-username (protocols region) region r heap) (n, h)
      | inr e ↦ rw (e) (
        named-add_to_other r.username regions region heap
              (same_name_sym region.username r.username ∙ e)
            ∙ n,
        add_to-DistinctNames regions region heap h,
      )
    ]

-- If no two regions of the proxy have the same name but for the case of letters, this still holds
-- when a region is added.
pub add_region-DistinctNames :
    (region : Region) (proxy : Proxy) (heap : Heap)
    → DistinctNames proxy.regions
    → DistinctNames (add_region region proxy heap).0.regions
unfolding add_region
add_region-DistinctNames region proxy heap h = add_to-DistinctNames proxy.regions region heap h
