-- ===== src/Pmm/Linked/Many.antt =====
-- pmm.c: the inner loop of `pmm_alloc_pages`, in memory and on sequences.
use rix_draft.Base.{
  ℕ, zero, suc, ◌+◌, ◌-◌, ◌≤◌, ◌≡◌, refl, ◌∙◌, ap, none, some, List, [], ◌∷◌, ◌++◌, true, false,
  Bool-cases, List-cases, inl, inr, ltb, count, count-append, arith,
}
use rix_draft.LinkedList.{Ptr, Links, list_add_tail, list_remove_head}
use rix_draft.LinkedList.Ring.{Ring}
use rix_draft.Pmm.{Zone, mark, drain_zone}
use rix_draft.Pmm.Linked.{Memory, free_list, drain_at}
use rix_draft.Pmm.Linked.Rep.{ZoneAt, on_links-run}
use rix_draft.Pmm.Linked.Take.{Ring-list_remove_head_nil}
use rix_draft.Pmm.Linked.Drain.{Drains, Drains-refl, Drains-trans, moved_memory, move_page}

module _ (wanted : ℕ) (out : List Ptr) (f : Ptr → ℕ) (z : Zone) where
  drain_zone-none :
      ltb 0 z.free_count ≡ false
      → drain_zone (suc wanted) out f z
        ≡ (z, record { wanted = suc wanted; list = out; flags = f; stop = false })
  unfolding drain_zone
  drain_zone-none e = rw (drain_zone, e) refl

  drain_zone-empty :
      ltb 0 z.free_count ≡ true
      → z.free_pages ≡ []
      → drain_zone (suc wanted) out f z
        ≡ (z, record { wanted = suc wanted; list = out; flags = f; stop = true })
  unfolding drain_zone
  drain_zone-empty e n = rw (drain_zone, e) (simp n)

  drain_zone-page :
      (p : Ptr) (ps : List Ptr)
      → ltb 0 z.free_count ≡ true
      → z.free_pages ≡ p ∷ ps
      → drain_zone (suc wanted) out f z
        ≡ drain_zone wanted
            (out ++ p ∷ [])
            (mark f p)
            (record z { free_count = z.free_count - 1; free_pages = ps })
  unfolding drain_zone
  drain_zone-page p ps e n = rw (drain_zone, e, n) refl

module _ (list b : Ptr) (wanted : ℕ) (m : Memory) where
  drain_at-page :
      (p : Ptr) (l1 l2 : Links)
      → ltb 0 (m.free_count b) ≡ true
      → list_remove_head (free_list b) m.links ≡ some (some p, l1)
      → list_add_tail list p l1 ≡ some (tt, l2)
      → drain_at b list (suc wanted) m ≡ drain_at b list wanted (moved_memory list b m p l2)
  unfolding drain_at
  drain_at-page p l1 l2 full run1 run2 =
      let cut = on_links-run (list_remove_head (free_list b)) m (some p) l1 run1 in
      let joined =
        on_links-run (list_add_tail list p) (record m { links = l1; flags = mark m.flags p }) tt l2
          run2 in
      rw (drain_at, full, cut, joined) refl

-- The inner loop at one zone.
pub drain_at-Drains :
    (list b : Ptr) (wanted : ℕ) (z : Zone) (out : List Ptr) (m : Memory) (f : Ptr → ℕ)
    → m.flags ≡ f
    → ZoneAt m b z
    → Ring m.links list out
    → ((q : Ptr) → count q (list ∷ out) + count q (free_list b ∷ z.free_pages) ≤ 1)
    → (m' : Memory) × (drain_at b list wanted m
        ≡ some ((drain_zone wanted out f z).1.wanted, (drain_zone wanted out f z).1.stop, m'))
      × Drains list out
          (b ∷ [])
          (z ∷ [])
          m
          ((drain_zone wanted out f z).0 ∷ [], (drain_zone wanted out f z).1)
          m'
drain_at-Drains list b zero z out m f same h r apart = (
  m,
  (unfold drain_at drain_zone in refl),
  (unfold drain_zone in Drains-refl list out (b ∷ []) (z ∷ []) m _ (h, tt) r same refl),
)
drain_at-Drains list b (suc wanted) z out m f same h r apart =
    elim (Bool-cases (ltb 0 z.free_count)) [
      | inr none_here ↦
          let empty : ltb 0 (m.free_count b) ≡ false = rw h.free_count none_here in
          rw (drain_zone-none wanted out f z none_here) (
            m,
            (unfold drain_at in rw (drain_at, empty) refl),
            Drains-refl list out (b ∷ []) (z ∷ []) m _ (h, tt) r same refl,
          )
      | inl some_here ↦
          let full : ltb 0 (m.free_count b) ≡ true = rw h.free_count some_here in
          elim (List-cases z.free_pages) [
            | inl e ↦
                let ring : Ring m.links (free_list b) [] = rw e at h.free_pages in
                let nil =
                  on_links-run (list_remove_head (free_list b)) m none m.links
                    (Ring-list_remove_head_nil m.links (free_list b) ring) in
                rw (drain_zone-empty wanted out f z some_here e) (
                  m,
                  (unfold drain_at in rw (drain_at, full, nil) refl),
                  Drains-refl list out (b ∷ []) (z ∷ []) m _ (h, tt) r same refl,
                )
            | inr (p, ps, e) ↦
                let (l1, l2, run1, run2, moved) = move_page list b m z out p ps h e r apart in
                let m1 = moved_memory list b m p l2 in
                let z1 : Zone = record z { free_count = z.free_count - 1; free_pages = ps } in
                let pages : (q : Ptr) → count q z.free_pages ≡ count q (p ∷ ps) =
                  λ q. ap (count q) e in
                let flags : m1.flags ≡ mark f p =
                  moved.flags ∙ ap (λ (g : Ptr → ℕ). mark g p) same in
                let (m2, run, t) =
                  drain_at-Drains list b wanted z1 (out ++ p ∷ []) m1 (mark f p) flags moved.zones.0
                    moved.ring
                    (λ q. ground (arith, apart q, pages q, count-append q out (p ∷ []))) in
                rw (drain_zone-page wanted out f z p ps some_here e) (
                  m2,
                  drain_at-page list b wanted m p l1 l2 full run1 run2 ∙ run,
                  Drains-trans list out (out ++ p ∷ []) (b ∷ []) (z ∷ []) (z1 ∷ []) m m1 m2 _ _ refl
                      moved t,
                )
          ]
    ]
