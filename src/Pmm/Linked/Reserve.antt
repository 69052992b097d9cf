-- ===== src/Pmm/Linked/Reserve.antt =====
-- pmm.c: the walk of `pmm_alloc_range` over the zones, in memory and on sequences.
use mathlib.Core.Path.{subst}
use rix_draft.Base.{
  ℕ, zero, suc, ◌+◌, ◌<◌, ◌≡◌, refl, ◌∙◌, Option, Option-cases, none, some, List, [], ◌∷◌, ◌++◌,
  true, false, inl, inr, Bool-cases, ◌==◌, count, count-append, length, arith,
}
use rix_draft.Align.{round_down}
use rix_draft.LinkedList.{Ptr, null}
use rix_draft.LinkedList.Ring.{Chain, Ring, Ring-Spared}
use rix_draft.Pmm.{Zone, Pmm, Drain, page_size}
use rix_draft.Pmm
use rix_draft.Pmm.Range.{Run, range_zone, range_zones}
use rix_draft.Pmm.Range
use rix_draft.Pmm.Linked.{Memory}
use rix_draft.Pmm.Linked.Rep.{ZonesAt, free_nodes, IsPmm, Unshared}
use rix_draft.Pmm.Linked.Drain.{Drains, Drains-refl}
use rix_draft.Pmm.Linked.Walk.{others, still_apart, Chain-kept, Drains-stop, Drains-go}
use rix_draft.Pmm.Linked.Range.{range_at, range_from, alloc_range}
use rix_draft.Pmm.Linked.Claim.{state_of, RangesAt, range_at-RangesAt}

-- What the walk does, where it meets no fault on sequences.
abbrev RangesFrom :
    (list : Ptr) (out addrs : List Ptr) (zs : List Zone) (m : Memory)
    → Option (List Zone × Run)
    → Option (ℕ × ℕ × Memory)
    → Type 0
RangesFrom list out addrs zs m none o = Unit {0}
RangesFrom list out addrs zs m (some (zs', r')) o =
    (out' : List Ptr) × (m' : Memory) × (r'.list ≡ some out')
    × (o ≡ some (r'.left, r'.address, m'))
    × Drains list out addrs zs m (zs', state_of r' out') m'

module _ (z : Zone) (zs : List Zone) (r : Run) where
  range_zones-none : range_zone r.left z r ≡ none → range_zones (z ∷ zs) r ≡ none
  unfolding range_zones
  range_zones-none e = rw (range_zones, e) refl

  range_zones-stop :
      (z' : Zone) (r' : Run)
      → range_zone r.left z r ≡ some (z', r')
      → (r'.left == 0) ≡ true
      → range_zones (z ∷ zs) r ≡ some (z' ∷ zs, r')
  unfolding range_zones
  range_zones-stop z' r' e f = rw (range_zones, e, f) refl

  range_zones-lost :
      (z' : Zone) (r' : Run)
      → range_zone r.left z r ≡ some (z', r')
      → (r'.left == 0) ≡ false
      → range_zones zs r' ≡ none
      → range_zones (z ∷ zs) r ≡ none
  unfolding range_zones
  range_zones-lost z' r' e f n = rw (range_zones, e, f, n) refl

  range_zones-go :
      (z' : Zone) (r' : Run) (zs' : List Zone) (r2 : Run)
      → range_zone r.left z r ≡ some (z', r')
      → (r'.left == 0) ≡ false
      → range_zones zs r' ≡ some (zs', r2)
      → range_zones (z ∷ zs) r ≡ some (z' ∷ zs', r2)
  unfolding range_zones
  range_zones-go z' r' zs' r2 e f n = rw (range_zones, e, f, n) refl

module _ (head list : Ptr) (fuel left address : ℕ) (b : Ptr) (m m1 : Memory) (left' address' : ℕ)
    (other : (b == head) ≡ false)
    (run : range_at b list left address m ≡ some (left', address', m1)) where
  range_from-stop :
      (left' == 0) ≡ true
      → range_from head list (suc fuel) left address b m ≡ some (left', address', m1)
  unfolding range_from
  range_from-stop e = rw (range_from, other, run, e) refl

  range_from-go :
      (left' == 0) ≡ false
      → (b == null) ≡ false
      → range_from head list (suc fuel) left address b m
        ≡ range_from head list fuel left' address' (m1.links.next b) m1
  unfolding range_from
  range_from-go e real = rw (range_from, other, run, e, real) refl

range_from-RangesFrom :
    (head list : Ptr) (fuel : ℕ) (a : Ptr) (addrs : List Ptr) (zs : List Zone) (out : List Ptr)
    (r : Run) (m : Memory)
    → r.list ≡ some out
    → m.flags ≡ r.flags
    → Chain m.links a addrs head
    → ZonesAt m addrs zs
    → Ring m.links list out
    → Unshared (list ∷ out) head addrs zs
    → count null addrs ≡ 0
    → length addrs < fuel
    → RangesFrom list out addrs zs m
        (range_zones zs r)
        (range_from head list fuel r.left r.address (m.links.next a) m)
range_from-RangesFrom head list zero a addrs zs out r m listed same c h ring apart real enough =
    absurd (omega arith)
range_from-RangesFrom head list (suc fuel) a [] [] out r m listed same c h ring apart real enough =
    let found : (head == head) ≡ true = ground arith in
    unfold range_zones range_from in
    (
      out,
      m,
      listed,
      rw (c.0, range_from, found) refl,
      Drains-refl list out [] [] m (state_of r out) tt ring same refl,
    )
range_from-RangesFrom head list (suc fuel) a [] (z ∷ zs) out r m listed same c h ring apart real
      enough =
    absurd h
range_from-RangesFrom head list (suc fuel) a (b ∷ addrs) [] out r m listed same c h ring apart real
      enough =
    absurd h
range_from-RangesFrom head list (suc fuel) a (b ∷ addrs) (z ∷ zs) out r m listed same c h ring apart
      real enough =
    let other : (b == head) ≡ false = ground (arith, apart b) in
    let real_b : (b == null) ≡ false = ground arith in
    let cut : (p : Ptr)
        → count p (z.free_pages ++ free_nodes addrs zs)
          ≡ count p z.free_pages + count p (free_nodes addrs zs) =
      λ p. count-append p z.free_pages (free_nodes addrs zs) in
    let zone_here =
      range_at-RangesAt list b r.left z out r m refl listed same h.0 ring
        (λ q. ground (arith, apart q, cut q)) in
    elim (Option-cases (range_zone r.left z r)) [
      | inl n ↦ rw (range_zones-none z zs r n) tt
      | inr ((z', r'), e) ↦
          let zone_here' : RangesAt list b out z m (some (z', r'))
              (range_at b list r.left r.address m) =
            rw e at zone_here in
          let (out', m1, listed', run, s) = zone_here' in
          let d = state_of r' out' in
          elim (Bool-cases (r'.left == 0)) [
            | inl f ↦ rw (range_zones-stop z zs r z' r' e f) (
              out',
              m1,
              listed',
              rw c.0 (range_from-stop head list fuel r.left r.address b m m1 _ _ other run f),
              Drains-stop head list b addrs z z' zs out m m1 d h apart s,
            )
            | inr f ↦
                let rest =
                  range_from-RangesFrom head list fuel b addrs zs out' r' m1 listed' s.flags
                    (Chain-kept head list b addrs z z' zs out m m1 d h apart s c.2)
                    (others head list b addrs z z' zs out m m1 d h apart s) s.ring
                    (still_apart head list b addrs z z' zs out m m1 d h apart s) (ground arith)
                    (omega arith) in
                elim (Option-cases (range_zones zs r')) [
                  | inl n ↦ rw (range_zones-lost z zs r z' r' e f n) tt
                  | inr ((zs', r2), n) ↦
                      let rest' : RangesFrom list out' addrs zs m1 (some (zs', r2))
                          (range_from head list fuel r'.left r'.address (m1.links.next b) m1) =
                        rw n at rest in
                      let (out2, m2, listed2, run2, t) = rest' in
                      rw (range_zones-go z zs r z' r' zs' r2 e f n) (
                        out2,
                        m2,
                        listed2,
                        rw c.0 (
                            range_from-go head list fuel r.left r.address b m m1 _ _ other run f
                              real_b
                            ∙ run2),
                        Drains-go head list b addrs z z' zs out m m1 d h apart s m2 zs'
                            (state_of r2 out2) t,
                      )
                ]
          ]
    ]

-- What `pmm_alloc_range` does in memory, where it meets no fault on sequences.
abbrev Ranges :
    (head list : Ptr) (addrs : List Ptr)
    → Option (ℕ × Option (List ℕ) × Pmm)
    → Option (ℕ × Memory)
    → Type 0
Ranges head list addrs none o = Unit {0}
Ranges head list addrs (some (n, l, s')) o =
    (out' : List Ptr) × (m' : Memory) × (l ≡ some out')
    × (o ≡ some (n, m'))
    × Ring m'.links list out'
    × IsPmm m' head addrs s'

module _ (head list : Ptr) (fuel address : ℕ) (addrs out : List Ptr) (m : Memory) (s : Pmm)
    (h : IsPmm m head addrs s) (ring : Ring m.links list out)
    (apart : Unshared (list ∷ out) head addrs s.zone_list) (enough : length addrs < fuel) where
  alloc_range-Ranges :
      (wanted : ℕ)
      → Ranges head list addrs
          (Pmm.Range.alloc_range address wanted (some out) s)
          (alloc_range head list fuel address wanted m)
  unfolding Pmm.Range.alloc_range alloc_range
  alloc_range-Ranges zero = (out, m, refl, refl, ring, h)
  alloc_range-Ranges (suc more) =
      let wanted = suc more in
      let zs = s.zone_list in
      let r : Run = record {
        left = wanted;
        address = round_down address page_size;
        list = some out;
        flags = s.flags;
      } in
      let some_wanted : (wanted == 0) ≡ false = ground arith in
      let walk =
        range_from-RangesFrom head list fuel head addrs zs out r m refl h.flags h.holds.ring.chain
          h.holds.zones ring apart (ground (arith, h.holds.ring.real)) enough in
      elim (Option-cases (range_zones zs r)) [
        | inl n ↦ rw (some_wanted, n) tt
        | inr ((zs', r'), n) ↦
            let walk' : RangesFrom list out addrs zs m (some (zs', r')) (
                range_from head list fuel wanted (round_down address page_size) (m.links.next head)
                  m) =
              rw n at walk in
            let (out', m', listed, run, t) = walk' in
            let split = λ (p : Ptr). count-append p out (free_nodes addrs zs) in
            rw (some_wanted, n, run)
              (
                out',
                m',
                listed,
                refl,
                t.ring,
                record {
                  holds = record {
                    ring =
                        Ring-Spared (list ∷ out ++ free_nodes addrs zs) m.links m'.links head addrs
                          (λ p o. ground (arith, apart p, split p)) t.changed.links h.holds.ring;
                    zones = t.zones;
                    apart = λ p. ground (arith, apart p, t.pages p);
                  };
                  flags = t.flags;
                },
              )
      ]

-- `pmm_alloc_range` with a list, run on the links of a memory that holds the zones and the list, does
-- what it does on sequences where that is no fault: it takes the same number of pages, and the
-- memory holds the new list and the new zones as the sequences have them. The nodes of the list, of
-- the zones and of the free pages are all different, and the fuel is one round more than there are
-- zones.
pub alloc_range-IsPmm :
    (head list : Ptr) (fuel address wanted : ℕ) (addrs out : List Ptr) (m : Memory) (s : Pmm)
    → IsPmm m head addrs s
    → Ring m.links list out
    → Unshared (list ∷ out) head addrs s.zone_list
    → length addrs < fuel
    → (n : ℕ) (l : Option (List ℕ)) (s' : Pmm)
    → Pmm.Range.alloc_range address wanted (some out) s ≡ some (n, l, s')
    → (out' : List Ptr) × (m' : Memory) × (l ≡ some out')
      × (alloc_range head list fuel address wanted m ≡ some (n, m'))
      × Ring m'.links list out'
      × IsPmm m' head addrs s'
alloc_range-IsPmm head list fuel address wanted addrs out m s h ring apart enough n l s' e =
    subst
      (λ (o : Option (ℕ × Option (List ℕ) × Pmm)).
        Ranges head list addrs o (alloc_range head list fuel address wanted m))
      e (alloc_range-Ranges head list fuel address addrs out m s h ring apart enough wanted)
