-- ===== src/Proxy/Server/Regions/Merge.antt =====
-- What a region that is added to the proxy leaves under its name: for each protocol the variant that
-- was there, with the forward of the new one where it had none.
use unroxy.Base.{
  false, Option, none, some, List, if◌then◌else◌, ◌≡◌, refl, ap, ◌∙◌, Bool-cases, Option-cases, inl,
  inr,
}
use unroxy.Base.Text.{Text, is_empty, eq_ignore_ascii_case}
use unroxy.Proxy.Pool.{Protocol}
use unroxy.Proxy.Server.Regions.{
  Heap, Variant, Region, Proxy, variant_of, add_to, add_region, region_named,
}
use unroxy.Proxy.Server.Regions.Variants.{merged_variant, variant_of-merge}
use unroxy.Proxy.Server.Regions.Named.{
  named, named-add_to_new, named-add_to_known, named-add_to_other,
}

abbrev pub variant_in : Protocol → Option Region → Option Variant
variant_in p none = none
variant_in p (some region) = variant_of p region.variants

-- The variant of a protocol under a name.
abbrev pub variant_named : Text → Protocol → List Region → Option Variant
variant_named username p regions = variant_in p (region_named username regions)

region_named-named :
    (username : Text) (regions : List Region)
    → is_empty username ≡ false
    → region_named username regions ≡ named username regions
unfolding region_named
region_named-named username regions h = rw (h) refl

variant_in-add_to :
    (region : Region) (regions : List Region) (heap : Heap) (username : Text) (p : Protocol)
    → variant_in p (named username (add_to regions region heap).0) ≡ (
        if eq_ignore_ascii_case region.username username
        then merged_variant (variant_in p (named username regions)) (variant_of p region.variants)
        else variant_in p (named username regions))
unfolding merged_variant
variant_in-add_to region regions heap username p =
    elim (Bool-cases (eq_ignore_ascii_case region.username username)) [
      | inr e ↦ rw (e) (ap (variant_in p) (named-add_to_other username regions region heap e))
      | inl e ↦ elim (Option-cases (named username regions)) [
        | inl n ↦ rw (e, n) (ap (variant_in p) (named-add_to_new username regions region heap e n))
        | inr (known, n) ↦
            rw (e, n)
              (ap (variant_in p) (named-add_to_known username regions region known heap e n)
                ∙ variant_of-merge region known heap p)
      ]
    ]

-- When a region is added to the proxy, then for each protocol the variant under any name that is
-- the region's but for the case of letters, and is not empty, is the variant that was there, with
-- the forward of the region's variant if it had none, or the region's variant if none was there;
-- under every other name it stays as it was.
pub variant_named-add_region :
    (region : Region) (proxy : Proxy) (heap : Heap) (username : Text) (p : Protocol)
    → is_empty username ≡ false
    → variant_named username p (add_region region proxy heap).0.regions ≡ (
        if eq_ignore_ascii_case region.username username
        then merged_variant (variant_named username p proxy.regions) (variant_of p region.variants)
        else variant_named username p proxy.regions)
unfolding add_region region_named
variant_named-add_region region proxy heap username p h =
    rw
      (
        region_named-named username (add_to proxy.regions region heap).0 h,
        region_named-named username proxy.regions h,
      )
      (variant_in-add_to region proxy.regions heap username p)
