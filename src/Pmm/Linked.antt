-- ===== src/Pmm/Linked.antt =====
-- pmm.c over the links of list.h: each zone and each page is a structure at an address, and a list is
-- what its links say. A node is the first member of `pmm_zone_t` and of `vm_page_t`, so that
-- `container_of` gives its address back. `none` is a fault, or the end of the fuel.
pub mod Rep
pub mod Take
pub mod Alloc
pub mod Give
pub mod Free
pub mod Drain
pub mod Many
pub mod Walk
pub mod Fill
pub mod Add
pub mod Range
pub mod Claim
pub mod Reserve
pub mod Arrays
pub mod Grow
pub mod Serve
use rix_draft.Base.{
  ℕ, zero, suc, ◌+◌, ◌-◌, Option, none, some, Bool, true, false, ◌&&◌, ◌||◌, ltb, leb, u64, ◌/◌,
  ◌==◌, if◌then◌else◌,
}
use rix_draft.LinkedList.{
  Ptr, null, Links, Cmd, put, list_init, list_add, list_add_tail, list_is_empty, list_remove_head,
}
use rix_draft.Pmm.{Status, no_error, mark, unmark, page_size}

-- The links of all nodes, the fields of the zones, and the flags of the pages.
pub record Memory : Type 0 where
  pub links : Links
  pub base : Ptr → ℕ
  pub size : Ptr → ℕ
  pub page_array : Ptr → ℕ
  pub free_count : Ptr → ℕ
  pub flags : Ptr → ℕ

-- `&zone->free_pages`
abbrev pub free_list : (zone : Ptr) → Ptr
free_list zone = zone + 48

-- A command on the links.
abbrev pub on_links : {A : Type 0} → Cmd A → Memory → Option (A × Memory)
on_links c m = elim (c m.links) [ none ↦ none | some (a, l) ↦ some (a, record m { links = l }) ]

-- What the body of the loop of `pmm_alloc_page` does with the page it has removed.
abbrev pub claim_page : (zone : Ptr) → Option (Option Ptr × Memory) → Option (Option Ptr × Memory)
claim_page zone none = none
claim_page zone (some (none, m)) = some (none, m)
claim_page zone (some (some page, m)) = some (
  some page,
  record m {
    free_count = put m.free_count zone (m.free_count zone - 1);
    flags = mark m.flags page;
  },
)

-- The walk of `pmm_alloc_page` over the zones, from a node on: the page, if `out_page` is written.
unfoldable pub take_from :
    (head : Ptr) (fuel : ℕ) (node : Ptr) → Memory → Option (Option Ptr × Memory)
unfolding list_remove_head
take_from head zero node m = none
take_from head (suc fuel) node m =
    let rest = if node == null then none else take_from head fuel (m.links.next node) m in
    if node == head
    then some (none, m)
    else if ltb 0 (m.free_count node)
    then claim_page node (on_links (list_remove_head (free_list node)) m)
    else rest

-- `pmm_alloc_page`, where `head` is the address of `zone_list`.
unfoldable pub alloc_page : (head : Ptr) (fuel : ℕ) → Memory → Option (Status × Option Ptr × Memory)
unfolding take_from
alloc_page head fuel m = elim (take_from head fuel (m.links.next head) m) [
  | none ↦ none
  | some (page, m') ↦ some (no_error, page, m')
]

-- `PAGE_BELONGS_TO_ZONE`
abbrev pub page_belongs : (page zone : Ptr) → Memory → Bool
page_belongs page zone m =
    leb (m.page_array zone) page && ltb page (u64 (m.page_array zone + m.size zone / page_size))

-- What the body of the inner loop of `pmm_free_pages` does behind `list_add`.
abbrev pub return_page : (zone page : Ptr) → Option (Unit {0} × Memory) → Option (Bool × Memory)
return_page zone page none = none
return_page zone page (some (u, m)) = some (
  true,
  record m {
    free_count = put m.free_count zone (m.free_count zone + 1);
    flags = unmark m.flags page;
  },
)

-- The search of `pmm_free_pages` for the zone of a page, from a node on: whether there is one.
unfoldable pub give_from :
    (head : Ptr) (fuel : ℕ) (page node : Ptr) → Memory → Option (Bool × Memory)
unfolding list_add
give_from head zero page node m = none
give_from head (suc fuel) page node m =
    let rest = if node == null then none else give_from head fuel page (m.links.next node) m in
    if node == head
    then some (false, m)
    else if page_belongs page node m
    then return_page node page (on_links (list_add (free_list node) page) m)
    else rest

abbrev pub page_or_null : Option Ptr → Ptr
page_or_null none = null
page_or_null (some page) = page

-- `pmm_free_pages`, for `rounds` of the outer loop and `fuel` of the search; `list` is its argument.
unfoldable pub free_pages :
    (head : Ptr) (fuel rounds : ℕ) (list : Ptr) → Memory → Option (ℕ × Memory)
unfolding list_is_empty list_remove_head give_from
free_pages head fuel zero list m = none
free_pages head fuel (suc rounds) list m = elim (on_links (list_is_empty list) m) [
  | none ↦ none
  | some (true, m1) ↦ some (0, m1)
  | some (false, m1) ↦ elim (on_links (list_remove_head list) m1) [
    | none ↦ none
    | some (got, m2) ↦ elim (give_from head fuel (page_or_null got) (m2.links.next head) m2) [
      | none ↦ none
      | some (found, m3) ↦ elim (free_pages head fuel rounds list m3) [
        | none ↦ none
        | some (freed, m4) ↦ some ((if found then 1 else 0) + freed, m4)
      ]
    ]
  ]
]

-- `pmm_free_page`, where `list` is the address of its local list.
unfoldable pub free_page : (head : Ptr) (fuel : ℕ) (list page : Ptr) → Memory → Option (ℕ × Memory)
unfolding list_init list_add free_pages
free_page head fuel list page m = elim (on_links (list_init list) m) [
  | none ↦ none
  | some (u, m1) ↦ elim (on_links (list_add list page) m1) [
    | none ↦ none
    | some (v, m2) ↦ free_pages head fuel 2 list m2
  ]
]

-- The inner loop of `pmm_alloc_pages` at a zone, while pages are `wanted`: those that still are, and
-- whether `goto done` was taken.
unfoldable pub drain_at : (zone list : Ptr) (wanted : ℕ) → Memory → Option (ℕ × Bool × Memory)
unfolding list_remove_head list_add_tail
drain_at zone list zero m = some (0, false, m)
drain_at zone list (suc wanted) m = elim (ltb 0 (m.free_count zone)) [
  | false ↦ some (suc wanted, false, m)
  | true ↦ elim (on_links (list_remove_head (free_list zone)) m) [
    | none ↦ none
    | some (none, m1) ↦ some (suc wanted, true, m1)
    | some (some page, m1) ↦
        elim (on_links (list_add_tail list page) (record m1 { flags = mark m1.flags page })) [
          | none ↦ none
          | some (u, m2) ↦
              drain_at zone list wanted
                (record m2 { free_count = put m2.free_count zone (m2.free_count zone - 1) })
        ]
  ]
]

-- The walk of `pmm_alloc_pages` over the zones, from a node on.
unfoldable pub drain_from :
    (head list : Ptr) (fuel wanted : ℕ) (node : Ptr) → Memory → Option (ℕ × Memory)
unfolding drain_at
drain_from head list zero wanted node m = none
drain_from head list (suc fuel) wanted node m =
    if node == head then some (wanted, m) else (elim (drain_at node list wanted m) [
      | none ↦ none
      | some (left, stop, m1) ↦
          let rest =
            if node == null then none else drain_from head list fuel left (m1.links.next node) m1 in
          if stop || left == 0 then some (left, m1) else rest
    ])

-- What `pmm_alloc_pages` does with the page of its fast path; a page that was never written is a fault.
unfoldable pub link_one :
    (list : Ptr) → Option (Status × Option Ptr × Memory) → Option (Status × ℕ × Memory)
unfolding list_add_tail
link_one list none = none
link_one list (some (status, none, m)) = none
link_one list (some (status, some page, m)) = elim (on_links (list_add_tail list page) m) [
  | none ↦ none
  | some (u, m1) ↦ some (status, 1, m1)
]

-- `pmm_alloc_pages`: the status and the new `*count`.
unfoldable pub alloc_pages :
    (head list : Ptr) (fuel wanted : ℕ) → Memory → Option (Status × ℕ × Memory)
unfolding alloc_page link_one drain_from
alloc_pages head list fuel wanted m =
    if wanted == 0
    then some (no_error, 0, m)
    else if wanted == 1
    then link_one list (alloc_page head fuel m)
    else (elim (drain_from head list fuel wanted (m.links.next head) m) [
      | none ↦ none
      | some (left, m1) ↦ some (no_error, wanted - left, m1)
    ])
