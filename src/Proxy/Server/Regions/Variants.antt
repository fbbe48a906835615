-- ===== src/Proxy/Server/Regions/Variants.antt =====
-- The variants of a region to which those of another are added.
use unroxy.Base.{
  ℕ, Bool, true, false, ◌||◌, Option, none, some, List, [], ◌∷◌, map, any, All, is_some,
  if◌then◌else◌, ◌≡◌, refl, sym, ap, ◌∙◌, arith, Bool-cases, inl, inr,
}
use unroxy.Proxy.Pool.{Protocol, ssh, vpn, same_protocol}
use unroxy.Proxy.Server.Regions.{
  Heap, Variant, Region, variant_of, fill_forward, add_variant, add, region_pool, region_forward,
  protocols, add_variants,
}

same_protocol_iff : (p q : Protocol) → same_protocol p q ≡ true → p ≡ q
same_protocol_iff ssh ssh h = refl
same_protocol_iff vpn vpn h = refl
same_protocol_iff ssh vpn h = ground arith
same_protocol_iff vpn ssh h = ground arith

-- What becomes of the variant of a protocol when another is added.
unfoldable pub merged_variant : Option Variant → Option Variant → Option Variant
merged_variant none added = added
merged_variant (some v) none = some v
merged_variant (some v) (some added) = some (fill_forward added.forward v)

fill_forward-protocol :
    (forward : Option ℕ) (v : Variant) → (fill_forward forward v).protocol ≡ v.protocol
fill_forward-protocol forward v = elim (Bool-cases (is_some v.forward)) [
  | inl e ↦ rw (e) refl
  | inr e ↦ rw (e) refl
]

differs :
    (a q p : Protocol)
    → same_protocol a q ≡ false
    → same_protocol a p ≡ true
    → same_protocol q p ≡ false
differs ssh vpn ssh h e = refl
differs vpn ssh vpn h e = refl
differs ssh ssh p h e = ground arith
differs vpn vpn p h e = ground arith
differs ssh vpn vpn h e = ground arith
differs vpn ssh ssh h e = ground arith

filled : (w : Variant) → fill_forward w.forward w ≡ w
filled w = elim (Bool-cases (is_some w.forward)) [ inl e ↦ rw (e) refl | inr e ↦ rw (e) refl ]

filled_twice :
    (v w : Variant) → fill_forward w.forward (fill_forward w.forward v) ≡ fill_forward w.forward v
filled_twice v w = elim (Bool-cases (is_some v.forward)) [
  | inl e ↦ rw (e, e) refl
  | inr e ↦ elim (Bool-cases (is_some w.forward)) [
    | inl f ↦ rw (e, f) refl
    | inr f ↦ rw (e, f) refl
  ]
]

variant_of-add_variant :
    (p q : Protocol) (pool : ℕ) (forward : Option ℕ) (variants : List Variant)
    → variant_of p (add_variant q pool forward variants) ≡ (
        if same_protocol q p
        then merged_variant
            (variant_of p variants)
            (some record { protocol = q; pool = pool; forward = forward })
        else variant_of p variants)
unfolding add_variant merged_variant
variant_of-add_variant p q pool forward [] = elim (Bool-cases (same_protocol q p)) [
  | inl e ↦ rw (e) refl
  | inr e ↦ rw (e) refl
]
variant_of-add_variant p q pool forward (v ∷ variants) =
    elim (Bool-cases (same_protocol v.protocol q)) [
      | inl e ↦
          let b = ap (λ r. same_protocol r p) (same_protocol_iff v.protocol q e) in
          elim (Bool-cases (same_protocol q p)) [
            | inl c ↦ rw (e, fill_forward-protocol forward v, b, c) refl
            | inr c ↦ rw (e, fill_forward-protocol forward v, b, c) refl
          ]
      | inr e ↦ elim (Bool-cases (same_protocol v.protocol p)) [
        | inl b ↦ rw (e, b, differs v.protocol q p e b) refl
        | inr b ↦ rw (e, b) (variant_of-add_variant p q pool forward variants)
      ]
    ]

-- Another time the same variant changes nothing.
merged_variant_twice :
    (old added : Option Variant)
    → merged_variant (merged_variant old added) added ≡ merged_variant old added
unfolding merged_variant
merged_variant_twice none none = refl
merged_variant_twice none (some w) = ap some (filled w)
merged_variant_twice (some v) none = refl
merged_variant_twice (some v) (some w) = ap some (filled_twice v w)

variant_of-protocol :
    (p : Protocol) (variants : List Variant) (v : Variant)
    → variant_of p variants ≡ some v
    → v.protocol ≡ p
variant_of-protocol p [] v h = ground arith
variant_of-protocol p (w ∷ variants) v h = elim (Bool-cases (same_protocol w.protocol p)) [
  | inl e ↦
      let is_v : w ≡ v = ground (arith, e, h) in
      ap (λ (x : Variant). x.protocol) (sym is_v) ∙ same_protocol_iff w.protocol p e
  | inr e ↦ variant_of-protocol p variants v (ground (arith, e, h))
]

some_of : (o : Option Variant) → is_some o ≡ true → (v : Variant) × (o ≡ some v)
some_of none h = ground arith
some_of (some v) h = (v, refl)

same_variant :
    (q : Protocol) (pool : ℕ) (forward : Option ℕ) (w : Variant)
    → w.protocol ≡ q
    → w.pool ≡ pool
    → w.forward ≡ forward
    → ◌≡◌ {A = Variant} (record { protocol = q; pool = pool; forward = forward }) w
same_variant q pool forward w a b c = rw (sym a, sym b, sym c) refl

-- The variant that the loop adds for a protocol is the region's.
added_variant :
    (q : Protocol) (region : Region) (heap : Heap) (w : Variant)
    → variant_of q region.variants ≡ some w
    → ◌≡◌ {A = Variant}
        (record {
          protocol = q;
          pool = (region_pool (some q) region heap).0;
          forward = region_forward (some q) region;
        })
        w
unfolding region_pool region_forward
added_variant q region heap w e =
    same_variant q (region_pool (some q) region heap).0 (region_forward (some q) region) w
      (variant_of-protocol q region.variants w e) (ground (arith, e)) (rw (e) refl)

variant_of-added :
    (q p : Protocol) (region existing : Region) (heap : Heap)
    → is_some (variant_of q region.variants) ≡ true
    → variant_of p (
        add_variant q
          (region_pool (some q) region heap).0
          (region_forward (some q) region)
          existing.variants)
      ≡ (if same_protocol q p
          then merged_variant (variant_of p existing.variants) (variant_of p region.variants)
          else variant_of p existing.variants)
variant_of-added q p region existing heap h =
    let (w, e) = some_of (variant_of q region.variants) h in
    variant_of-add_variant p q (region_pool (some q) region heap).0 (region_forward (some q) region)
      existing.variants
    ∙ elim (Bool-cases (same_protocol q p)) [
      | inr c ↦ rw (c) refl
      | inl c ↦ rw (c) (
          ap (merged_variant (variant_of p existing.variants)) (
            ap some (added_variant q region heap w e)
            ∙ sym e
            ∙ ap (λ r. variant_of r region.variants) (same_protocol_iff q p c)))
    ]

-- The rest of the loop behind one protocol.
combined :
    (c a : Bool) (old added now : Option Variant)
    → now ≡ (if c then merged_variant old added else old)
    → (if a then merged_variant now added else now)
      ≡ (if c || a then merged_variant old added else old)
combined true true old added now h =
    ap (λ o. merged_variant o added) h ∙ merged_variant_twice old added
combined true false old added now h = h
combined false true old added now h = ap (λ o. merged_variant o added) h
combined false false old added now h = h

variant_of-add_variants :
    (ps : List Protocol) (region existing : Region) (heap : Heap) (p : Protocol)
    → All (λ q. is_some (variant_of q region.variants) ≡ true) ps
    → variant_of p (add_variants ps region existing heap).0.variants ≡ (
        if any (λ q. same_protocol q p) ps
        then merged_variant (variant_of p existing.variants) (variant_of p region.variants)
        else variant_of p existing.variants)
unfolding add_variants add region_pool region_forward
variant_of-add_variants [] region existing heap p h = refl
variant_of-add_variants (q ∷ ps) region existing heap p (h, hs) =
    let (pool, heap') = region_pool (some q) region heap in
    let (existing', heap'') = add q pool (region_forward (some q) region) existing heap' in
    variant_of-add_variants ps region existing' heap'' p hs
    ∙ combined (same_protocol q p) (any (λ r. same_protocol r p) ps)
        (variant_of p existing.variants) (variant_of p region.variants)
        (variant_of p existing'.variants) (variant_of-added q p region existing heap h)

any_protocol :
    (p : Protocol) (variants : List Variant)
    → any (λ q. same_protocol q p) (map (λ (v : Variant). v.protocol) variants)
      ≡ is_some (variant_of p variants)
any_protocol p [] = refl
any_protocol p (v ∷ variants) = elim (Bool-cases (same_protocol v.protocol p)) [
  | inl e ↦ rw (e) refl
  | inr e ↦ rw (e) (any_protocol p variants)
]

same_protocol_refl : (p : Protocol) → same_protocol p p ≡ true
same_protocol_refl ssh = refl
same_protocol_refl vpn = refl

later_is_some :
    (q : Protocol) (v : Variant) (variants : List Variant)
    → is_some (variant_of q variants) ≡ true
    → is_some (variant_of q (v ∷ variants)) ≡ true
later_is_some q v variants h = elim (Bool-cases (same_protocol v.protocol q)) [
  | inl e ↦ rw (e) refl
  | inr e ↦ rw (e) h
]

later-All :
    (v : Variant) (variants : List Variant) (ps : List Protocol)
    → All (λ q. is_some (variant_of q variants) ≡ true) ps
    → All (λ q. is_some (variant_of q (v ∷ variants)) ≡ true) ps
later-All v variants [] h = h
later-All v variants (q ∷ ps) (h, hs) = (later_is_some q v variants h, later-All v variants ps hs)

All-protocols :
    (variants : List Variant)
    → All (λ q. is_some (variant_of q variants) ≡ true) (map (λ (v : Variant). v.protocol) variants)
All-protocols [] = tt
All-protocols (v ∷ variants) = (
  rw (same_protocol_refl v.protocol) refl,
  later-All v variants (map (λ (w : Variant). w.protocol) variants) (All-protocols variants),
)

chosen :
    (old added : Option Variant)
    → (if is_some added then merged_variant old added else old) ≡ merged_variant old added
unfolding merged_variant
chosen none none = refl
chosen (some v) none = refl
chosen none (some w) = refl
chosen (some v) (some w) = refl

-- Adding the variants of a region to another merges them by protocol.
pub variant_of-merge :
    (region existing : Region) (heap : Heap) (p : Protocol)
    → variant_of p (add_variants (protocols region) region existing heap).0.variants
      ≡ merged_variant (variant_of p existing.variants) (variant_of p region.variants)
variant_of-merge region existing heap p =
    variant_of-add_variants (protocols region) region existing heap p
      (All-protocols region.variants)
    ∙ rw (any_protocol p region.variants)
        (chosen (variant_of p existing.variants) (variant_of p region.variants))
