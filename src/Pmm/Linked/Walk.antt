-- ===== src/Pmm/Linked/Walk.antt =====
-- pmm.c: the walk of `pmm_alloc_pages` over the zones, in memory and on sequences.
use rix_draft.Base.{
  ℕ, zero, suc, ◌+◌, ◌<◌, ◌≡◌, refl, ◌∙◌, some, List, [], ◌∷◌, ◌++◌, Bool, true, false, Bool-cases,
  inl, inr, ◌||◌, ◌==◌, count, count-append, length, arith,
}
use rix_draft.LinkedList.{Ptr, null}
use rix_draft.LinkedList.Ring.{Chain, Chain-frame, Ring}
use rix_draft.Pmm.{Zone, Drain, drain_zone, drain_zones}
use rix_draft.Pmm.Linked.{Memory, free_list, drain_at, drain_from}
use rix_draft.Pmm.Linked.Rep.{
  ZonesAt, free_nodes, ZoneAt-Changed, ZonesAt-Changed, Changed-widen, Unshared,
}
use rix_draft.Pmm.Linked.Drain.{Drains, Drains-refl}
use rix_draft.Pmm.Linked.Many.{drain_at-Drains}

module _ (wanted : ℕ) (out : List Ptr) (f : Ptr → ℕ) (z : Zone) (zs : List Zone) where
  drain_zones-stop :
      let here = drain_zone wanted out f z in
      (here.1.stop || here.1.wanted == 0) ≡ true
      → drain_zones wanted out f (z ∷ zs) ≡ (here.0 ∷ zs, here.1)
  unfolding drain_zones
  drain_zones-stop e = rw (drain_zones, e) refl

  drain_zones-go :
      let here = drain_zone wanted out f z in
      let rest = drain_zones here.1.wanted here.1.list here.1.flags zs in
      (here.1.stop || here.1.wanted == 0) ≡ false
      → drain_zones wanted out f (z ∷ zs) ≡ (here.0 ∷ rest.0, rest.1)
  unfolding drain_zones
  drain_zones-go e = rw (drain_zones, e) refl

module _ (head list : Ptr) (fuel wanted : ℕ) (b : Ptr) (m m1 : Memory) (left : ℕ) (stop : Bool)
    (other : (b == head) ≡ false) (run : drain_at b list wanted m ≡ some (left, stop, m1)) where
  drain_from-stop :
      (stop || left == 0) ≡ true → drain_from head list (suc fuel) wanted b m ≡ some (left, m1)
  unfolding drain_from
  drain_from-stop e = rw (drain_from, other, run, e) refl

  drain_from-go :
      (stop || left == 0) ≡ false
      → (b == null) ≡ false
      → drain_from head list (suc fuel) wanted b m
        ≡ drain_from head list fuel left (m1.links.next b) m1
  unfolding drain_from
  drain_from-go e real = rw (drain_from, other, run, e, real) refl

-- One zone and the zones behind it.
module _ (head list b : Ptr) (addrs : List Ptr) (z z' : Zone) (zs : List Zone) (out : List Ptr)
    (m m1 : Memory) (d : Drain) (h : ZonesAt m (b ∷ addrs) (z ∷ zs))
    (apart : Unshared (list ∷ out) head (b ∷ addrs) (z ∷ zs))
    (s : Drains list out (b ∷ []) (z ∷ []) m (z' ∷ [], d) m1) where
  split :
      (p : Ptr)
      → count p (z.free_pages ++ free_nodes addrs zs)
        ≡ count p z.free_pages + count p (free_nodes addrs zs)
  split p = count-append p z.free_pages (free_nodes addrs zs)

  touched :
      (p : Ptr)
      → count p (out ++ free_nodes (b ∷ []) (z ∷ []))
        ≡ count p out + count p (free_list b ∷ z.free_pages)
  touched p =
      omega (
        arith,
        count-append p out (free_list b ∷ z.free_pages ++ []),
        count-append p z.free_pages [],
      )

  moved :
      (p : Ptr)
      → count p d.list + count p (free_list b ∷ z'.free_pages)
        ≡ count p out + count p (free_list b ∷ z.free_pages)
  moved p =
      omega (arith, s.pages p, count-append p z.free_pages [], count-append p z'.free_pages [])

  pub others : ZonesAt m1 addrs zs
  others =
      ZonesAt-Changed (b ∷ []) (list ∷ out ++ free_nodes (b ∷ []) (z ∷ [])) m m1 s.changed addrs zs
        (λ a o. ground (arith, apart a)) (λ p o. ground (arith, apart p, split p, touched p)) h.1

  pub still_apart : Unshared (list ∷ d.list) head addrs zs
  still_apart p = ground (arith, apart p, split p, moved p)

  pub Chain-kept : Chain m.links b addrs head → Chain m1.links b addrs head
  Chain-kept =
      Chain-frame m.links m1.links b addrs head
        (λ p o. (s.changed.links p (ground (arith, apart p, split p, touched p))).0)
        (λ p o. (s.changed.links p (ground (arith, apart p, split p, touched p))).1)

  pub Drains-stop : Drains list out (b ∷ addrs) (z ∷ zs) m (z' ∷ zs, d) m1
  Drains-stop = record {
    zones = (s.zones.0, others);
    ring = s.ring;
    flags = s.flags;
    changed =
        Changed-widen (b ∷ []) (list ∷ out ++ free_nodes (b ∷ []) (z ∷ [])) (b ∷ addrs)
          (list ∷ out ++ free_nodes (b ∷ addrs) (z ∷ zs)) m m1 (λ a. ground arith)
          (λ p. ground (
            arith,
            touched p,
            split p,
            count-append p out (free_list b ∷ z.free_pages ++ free_nodes addrs zs),
          ))
          s.changed;
    pages =
        λ p. ground (arith, moved p, split p, count-append p z'.free_pages (free_nodes addrs zs));
  }

  pub Drains-go :
      (m2 : Memory) (zs2 : List Zone) (d2 : Drain)
      → Drains list d.list addrs zs m1 (zs2, d2) m2
      → Drains list out (b ∷ addrs) (z ∷ zs) m (z' ∷ zs2, d2) m2
  Drains-go m2 zs2 d2 t =
      let later = λ (p : Ptr). count-append p d.list (free_nodes addrs zs) in
      record {
        zones = (
          ZoneAt-Changed addrs (list ∷ d.list ++ free_nodes addrs zs) m1 m2 t.changed b z'
              (ground (arith, apart b)) (λ p o. ground (arith, apart p, split p, moved p, later p))
              s.zones.0,
          t.zones,
        );
        ring = t.ring;
        flags = t.flags;
        changed = record {
          links = λ p o.
              let whole = count-append p out (free_list b ∷ z.free_pages ++ free_nodes addrs zs) in
              let first = s.changed.links p (ground (arith, touched p, split p, whole)) in
              let second = t.changed.links p (ground (arith, moved p, split p, later p, whole)) in
              (second.0 ∙ first.0, second.1 ∙ first.1);
          free_count =
              λ a o. t.changed.free_count a (ground arith) ∙ s.changed.free_count a (ground arith);
          base = t.changed.base ∙ s.changed.base;
          size = t.changed.size ∙ s.changed.size;
          page_array = t.changed.page_array ∙ s.changed.page_array;
        };
        pages = λ p. ground (
          arith,
          moved p,
          t.pages p,
          split p,
          count-append p z'.free_pages (free_nodes addrs zs2),
        );
      }

-- The walk, on the zones that follow a node.
pub drain_from-Drains :
    (head list : Ptr) (fuel wanted : ℕ) (a : Ptr) (addrs : List Ptr) (zs : List Zone)
    (out : List Ptr) (m : Memory) (f : Ptr → ℕ)
    → m.flags ≡ f
    → Chain m.links a addrs head
    → ZonesAt m addrs zs
    → Ring m.links list out
    → Unshared (list ∷ out) head addrs zs
    → count null addrs ≡ 0
    → length addrs < fuel
    → (m' : Memory) × (drain_from head list fuel wanted (m.links.next a) m
        ≡ some ((drain_zones wanted out f zs).1.wanted, m'))
      × Drains list out addrs zs m (drain_zones wanted out f zs) m'
drain_from-Drains head list zero wanted a addrs zs out m f same c h r apart real enough =
    absurd (omega arith)
drain_from-Drains head list (suc fuel) wanted a [] [] out m f same c h r apart real enough =
    let found : (head == head) ≡ true = ground arith in
    (
      m,
      (unfold drain_from drain_zones in rw (c.0, drain_from, found) refl),
      (unfold drain_zones in Drains-refl list out [] [] m _ tt r same refl),
    )
drain_from-Drains head list (suc fuel) wanted a [] (z ∷ zs) out m f same c h r apart real enough =
    absurd h
drain_from-Drains head list (suc fuel) wanted a (b ∷ addrs) [] out m f same c h r apart real
      enough =
    absurd h
drain_from-Drains head list (suc fuel) wanted a (b ∷ addrs) (z ∷ zs) out m f same c h r apart real
      enough =
    let other : (b == head) ≡ false = ground (arith, apart b) in
    let real_b : (b == null) ≡ false = ground arith in
    let cut : (p : Ptr)
        → count p (z.free_pages ++ free_nodes addrs zs)
          ≡ count p z.free_pages + count p (free_nodes addrs zs) =
      λ p. count-append p z.free_pages (free_nodes addrs zs) in
    let (m1, run, s) =
      drain_at-Drains list b wanted z out m f same h.0 r (λ q. ground (arith, apart q, cut q)) in
    let here = drain_zone wanted out f z in
    elim (Bool-cases (here.1.stop || here.1.wanted == 0)) [
      | inl e ↦ rw (drain_zones-stop wanted out f z zs e) (
        m1,
        rw c.0 (drain_from-stop head list fuel wanted b m m1 _ _ other run e),
        Drains-stop head list b addrs z here.0 zs out m m1 here.1 h apart s,
      )
      | inr e ↦
          let (m2, run2, t) =
            drain_from-Drains head list fuel here.1.wanted b addrs zs here.1.list m1 here.1.flags
              s.flags (Chain-kept head list b addrs z here.0 zs out m m1 here.1 h apart s c.2)
              (others head list b addrs z here.0 zs out m m1 here.1 h apart s) s.ring
              (still_apart head list b addrs z here.0 zs out m m1 here.1 h apart s) (ground arith)
              (omega arith) in
          rw (drain_zones-go wanted out f z zs e) (
            m2,
            rw c.0 (drain_from-go head list fuel wanted b m m1 _ _ other run e real_b ∙ run2),
            Drains-go head list b addrs z here.0 zs out m m1 here.1 h apart s m2 _ _ t,
          )
    ]
