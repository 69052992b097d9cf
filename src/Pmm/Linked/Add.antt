-- ===== src/Pmm/Linked/Add.antt =====
-- pmm.c: `pmm_add_zone` in memory, and the pages that its loop links.
use mathlib.Core.List.{append-nil, append_assoc}
use rix_draft.Base.{
  ℕ, zero, suc, ◌+◌, ◌*◌, ◌/◌, ◌≤◌, ◌<◌, ◌≡◌, refl, ◌∙◌, ap, Option, none, some, List, [], ◌∷◌,
  ◌++◌, ltb, leb, ◌&&◌, true, false, ◌^◌, u32, u64, if◌then◌else◌, count, count-append, arith,
}
use rix_draft.Balloc.{BootAlloc, balloc}
use rix_draft.LinkedList.{Ptr, Links, put, list_init, list_add_tail}
use rix_draft.LinkedList.Ring.{Ring}
use rix_draft.LinkedList.Insert.{Ring-list_add_tail}
use rix_draft.Pmm.{Status, no_error, invalid_args, page_size, page_bytes, clear_flags, is_memory}
use rix_draft.CString.Fill.{written}
use rix_draft.Pmm.Invariant.{pages_from}
use rix_draft.Pmm.Linked.{Memory, free_list, on_links}
use rix_draft.Pmm.Linked.Rep.{Changed, Changed-refl, on_links-run}

-- The loop of `pmm_add_zone` at `page_idx`, a `uint32_t`. It has ended after as many rounds of fuel
-- as there are frames, and one more, or else `page_idx` wraps and it never ends.
unfoldable pub add_pages : (zone : Ptr) (fuel frames page_idx : ℕ) → Memory → Option Memory
unfolding list_add_tail
add_pages zone zero frames page_idx m = none
add_pages zone (suc fuel) frames page_idx m = elim (ltb page_idx frames) [
  | false ↦ some m
  | true ↦
      elim (on_links (list_add_tail (free_list zone) (m.page_array zone + page_idx * page_bytes))
        m) [
          | none ↦ none
          | some (u, m1) ↦
              add_pages zone fuel frames (u32 (page_idx + 1))
                (record m1 { free_count = put m1.free_count zone (m1.free_count zone + 1) })
        ]
]

-- The effect of `memset(array, 0, ...)`, where it writes `bytes` bytes, on a word at an address. The
-- words of the structures are aligned to 8 bytes, as the array and the bytes are.
abbrev pub clear_word : (array bytes at value : ℕ) → ℕ
clear_word array bytes at value = if leb array at && ltb at (array + bytes) then 0 else value

-- On the nodes.
abbrev pub clear_links : (array bytes : ℕ) → Links → Links
clear_links array bytes l = record {
  prev = λ p. clear_word array bytes p (l.prev p);
  next = λ p. clear_word array bytes (p + 8) (l.next p);
}

-- On all structures: the fields of a zone are at the bytes 16 to 47 of it.
abbrev pub clear_memory : (array bytes : ℕ) → Memory → Memory
clear_memory array bytes m = record {
  links = clear_links array bytes m.links;
  base = λ a. clear_word array bytes (a + 16) (m.base a);
  size = λ a. clear_word array bytes (a + 24) (m.size a);
  page_array = λ a. clear_word array bytes (a + 32) (m.page_array a);
  free_count = λ a. clear_word array bytes (a + 40) (m.free_count a);
  flags = clear_flags array bytes m.flags;
}

-- `pmm_add_zone`, for a structure at `zone` whose `base` and `size` are filled in.
unfoldable pub add_zone :
    (head zone : Ptr) → Memory → BootAlloc → Option (Status × Memory × BootAlloc)
unfolding list_add_tail list_init add_pages
add_zone head zone m boot =
    if ltb 0 (m.size zone)
    then (elim (on_links (list_add_tail head zone) m) [
      | none ↦ none
      | some (u, m1) ↦
          elim (on_links (list_init (free_list zone))
            (record m1 { free_count = put m1.free_count zone 0 })) [
              | none ↦ none
              | some (v, m2) ↦
                  let frames = m2.size zone / page_size in
                  let bytes = u64 (frames * page_bytes) in
                  let (array, boot') = balloc bytes boot in
                  let reset = written array bytes in
                  let m3 =
                    clear_memory array reset
                      (record m2 { page_array = put m2.page_array zone array }) in
                  let added = add_pages zone (suc frames) frames 0 m3 in
                  if is_memory array reset
                  then (elim added [ none ↦ none | some m4 ↦ some (no_error, m4, boot') ])
                  else none
            ]
    ])
    else some (invalid_args, m, boot)

-- What the loop does to the zone at `a` with an array at `array`, whose free list has the pages `done`.
pub record Grows (a : Ptr) (array left index : ℕ) (done : List Ptr) (m m' : Memory) : Type 0 where
  pub ring : Ring m'.links (free_list a) (done ++ pages_from array index left)
  pub free_count : m'.free_count a ≡ m.free_count a + left
  pub flags : m'.flags ≡ m.flags
  pub changed : Changed (a ∷ []) (free_list a ∷ done ++ pages_from array index left) m m'

module _ (a : Ptr) (array : ℕ) (real : 1 ≤ array) where
  -- The memory behind one page.
  grown_memory : Memory → Links → Memory
  grown_memory m l = record m { links = l; free_count = put m.free_count a (m.free_count a + 1) }

  add_pages-step :
      (fuel frames index : ℕ) (m : Memory) (l : Links)
      → index < frames
      → frames < 2 ^ 32
      → list_add_tail (free_list a) (m.page_array a + index * page_bytes) m.links ≡ some (tt, l)
      → add_pages a (suc fuel) frames index m
        ≡ add_pages a fuel frames (index + 1) (grown_memory m l)
  unfolding add_pages grown_memory
  add_pages-step fuel frames index m l h small run =
      let next = m.page_array a + index * page_bytes in
      let more : ltb index frames ≡ true = ground arith in
      let after : u32 (index + 1) ≡ index + 1 = omega arith in
      rw (add_pages, more, on_links-run (list_add_tail (free_list a) next) m tt l run, after) refl

  add_pages-end :
      (frames index : ℕ) (m : Memory) → index ≡ frames → add_pages a 1 frames index m ≡ some m
  unfolding add_pages
  add_pages-end frames index m e =
      let ends : ltb index frames ≡ false = ground arith in rw (add_pages, ends) refl

  pub add_pages-Grows :
      (left frames index : ℕ) (done : List Ptr) (m : Memory)
      → index + left ≡ frames
      → frames < 2 ^ 32
      → Ring m.links (free_list a) done
      → m.page_array a ≡ array
      → ((k : ℕ)
          → index ≤ k
          → k < index + left
          → count (array + k * page_bytes) (free_list a ∷ done) ≡ 0)
      → (m' : Memory) × (add_pages a (suc left) frames index m ≡ some m')
        × Grows a array left index done m m'
  unfolding grown_memory
  add_pages-Grows zero frames index done m ends small r here fresh = (
    m,
    add_pages-end frames index m (omega arith),
    record {
      ring = rw append-nil r;
      free_count = omega arith;
      flags = refl;
      changed = Changed-refl (a ∷ []) (free_list a ∷ done ++ []) m;
    },
  )
  add_pages-Grows (suc left) frames index done m ends small r here fresh =
      let p : Ptr = array + index * page_bytes in
      let (u, l, run, added) =
        Ring-list_add_tail m.links (free_list a) p done r (λ n. omega (arith, n))
          (fresh index (omega arith) (omega arith)) in
      let m1 = grown_memory m l in
      let run_here : list_add_tail (free_list a) (m.page_array a + index * page_bytes) m.links
          ≡ some (tt, l) =
        ap (λ (x : Ptr). list_add_tail (free_list a) (x + index * page_bytes) m.links) here ∙ run in
      let (m', run', t) =
        add_pages-Grows left frames (index + 1) (done ++ p ∷ []) m1 (omega arith) small added.0 here
          (λ k low high. ground (
            arith,
            fresh k (omega arith) (omega arith),
            count-append (array + k * page_bytes) done (p ∷ []),
          )) in
      (
        m',
        add_pages-step (suc left) frames index m l (omega arith) small run_here ∙ run',
        record {
          ring = rw append_assoc at t.ring;
          free_count = ground (arith, t.free_count);
          flags = t.flags;
          changed = record {
            links = λ q o.
                let whole = count-append q done (p ∷ pages_from array (index + 1) left) in
                let outer = count-append q (done ++ p ∷ []) (pages_from array (index + 1) left) in
                let inner = count-append q done (p ∷ []) in
                let first = added.1 q (ground (arith, whole)) in
                let second = t.changed.links q (ground (arith, whole, outer, inner)) in
                (second.0 ∙ first.0, second.1 ∙ first.1);
            free_count = λ b o. t.changed.free_count b o ∙ ground arith;
            base = t.changed.base;
            size = t.changed.size;
            page_array = t.changed.page_array;
          };
        },
      )
