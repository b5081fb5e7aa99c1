-- ===== src/Utils/Alloc.antt =====
-- The bump allocator of ex41/utils.c, ex51/utils.c and ex62/utils.c: `curr` starts at `_end`, and
-- nothing is ever given back.
use osc_2026_exercise.Base.{
  ℕ, ◌+◌, ◌-◌, ◌*◌, ◌/◌, ◌%◌, ◌^◌, ◌<◌, ◌≤◌, ◌≡◌, refl, ap, ◌∙◌, bit_and, arith, List, [], ◌∷◌,
}
use osc_2026_exercise.Utils.Align.{mask_align_lem}

-- `(curr + 0xf) & ~0xf`, then the block; the pointer, and the new `curr`.
unfoldable pub kmalloc : ℕ → ℕ → ℕ × ℕ
kmalloc size curr =
    let p = bit_and ((curr + 0xf) % 2 ^ 64) (2 ^ 64 - 0x10) in (p, (p + size) % 2 ^ 64)

unfoldable pub alloc_page : ℕ → ℕ × ℕ
alloc_page curr =
    let p = bit_and ((curr + 0x1000 - 1) % 2 ^ 64) (2 ^ 64 - 0x1000) in (p, (p + 0x1000) % 2 ^ 64)

module _ (size curr : ℕ) (fits : curr + 16 + size < 2 ^ 64) where
  -- Below the end of memory `kmalloc` returns the least multiple of 16 from `curr` on, and
  -- `curr` moves to the end of the block.
  pub kmalloc_lem :
      let (p, curr') = kmalloc size curr in (p ≡ (curr + 15) / 16 * 16) × (curr' ≡ p + size)
  unfolding kmalloc
  kmalloc_lem =
      let arg : curr + 0xf ≡ curr + 0x10 - 1 = omega arith in
      let start : bit_and ((curr + 0xf) % 2 ^ 64) (2 ^ 64 - 0x10) ≡ (curr + 15) / 16 * 16 =
        ap (λ t. bit_and (t % 2 ^ 64) (2 ^ 64 - 0x10)) arg
        ∙ mask_align_lem 64 60 4 curr refl (omega arith)
        ∙ omega arith in
      (start, omega (arith, start))

module _ (curr : ℕ) (fits : curr + 0x2000 < 2 ^ 64) where
  pub alloc_page_lem :
      let (p, curr') = alloc_page curr in
      (p ≡ (curr + 0xfff) / 0x1000 * 0x1000) × (curr' ≡ p + 0x1000)
  unfolding alloc_page
  alloc_page_lem =
      let start : bit_and ((curr + 0x1000 - 1) % 2 ^ 64) (2 ^ 64 - 0x1000)
          ≡ (curr + 0xfff) / 0x1000 * 0x1000 =
        mask_align_lem 64 52 12 curr refl (omega arith) ∙ omega arith in
      (start, omega (arith, start))

-- What a program asks for, in order.
pub data Request : Type 0 where
  bytes : ℕ → Request
  page : Request

pub record Block : Type 0 where
  pub request : Request
  pub base : ℕ

abbrev pub serve_one : Request → ℕ → ℕ × ℕ
serve_one (bytes n) curr = kmalloc n curr
serve_one page curr = alloc_page curr

pub serve : List Request → ℕ → List Block
serve [] curr = []
serve (r ∷ rs) curr =
    let (p, curr') = serve_one r curr in record { request = r; base = p } ∷ serve rs curr'

abbrev pub size : Request → ℕ
size (bytes n) = n
size page = 0x1000

abbrev pub alignment : Request → ℕ
alignment (bytes n) = 16
alignment page = 0x1000

-- A bound on what the requests take, padding included.
abbrev pub demand : List Request → ℕ
demand [] = 0
demand (r ∷ rs) = alignment r + size r + demand rs

-- The blocks lie one behind another from `lo` on, each aligned.
abbrev pub Laid : ℕ → List Block → Type 0
Laid lo [] = Unit
Laid lo (b ∷ bs) =
    (lo ≤ b.base) × (b.base % alignment b.request ≡ 0) × Laid (b.base + size b.request) bs

-- Where the demand does not reach the end of the address space, the blocks that `kmalloc` and
-- `alloc_page` return for any sequence of requests lie one behind another from `curr` on, so no
-- two overlap, and each is aligned, to 16 bytes or to a page.
pub serve-Laid :
    (rs : List Request) (curr : ℕ) → curr + demand rs < 2 ^ 64 → Laid curr (serve rs curr)
unfolding serve
serve-Laid [] curr fits = tt
serve-Laid (bytes n ∷ rs) curr fits =
    let (start, next) = kmalloc_lem n curr (omega arith) in
    (omega (arith, start), omega (arith, start), rw next (serve-Laid rs _ (omega (arith, start))))
serve-Laid (page ∷ rs) curr fits =
    let (start, next) = alloc_page_lem curr (omega arith) in
    (omega (arith, start), omega (arith, start), rw next (serve-Laid rs _ (omega (arith, start))))
