-- ===== src/Api/Pages.antt =====
-- The number of pages that a reply names.
use service_platform.Prelude.{ℕ, ◌+◌, ◌-◌, ◌*◌, ◌≤◌, ◌<◌, arith, lt→ltb}
use native.Mathlib.Nat.{mod-add-div', mod-lt}
use service_platform.Api.Response.{number_of_pages}

-- For pages that hold at least one item, the pages are as many as hold all items, and not one more.
pub number_of_pages_enough :
    (total size : ℕ)
    → 0 < size
    → (total ≤ number_of_pages total size * size)
      × (number_of_pages total size * size < total + size)
unfolding number_of_pages
number_of_pages_enough total size some_room = rw (lt→ltb 0 size some_room) (
  omega
      (arith, some_room, mod-add-div' (total + size - 1) size, mod-lt (total + size - 1) some_room),
  omega
      (arith, some_room, mod-add-div' (total + size - 1) size, mod-lt (total + size - 1) some_room),
)
