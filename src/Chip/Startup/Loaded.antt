-- ===== src/Chip/Startup/Loaded.antt =====
-- What the application finds in memory (`Reset_Handler`, src/stm32h7/Startup.cpp).
use lwip_server.Base.{
  ℕ, zero, suc, ◌+◌, ◌-◌, ◌≤◌, ◌≡◌, ◌⊎◌, Bool, ◌&&◌, ltb, leb, arith, if◌then◌else◌,
}
use lwip_server.Chip.Startup.{Memory, Layout, write, copy, fill, load}

-- Whether an address is one of the n from `start`.
abbrev pub inside : ℕ → ℕ → ℕ → Bool
inside start n a = leb start a && ltb a (start + n)

abbrev pub Apart : ℕ → ℕ → ℕ → ℕ → Type 0
Apart a n b k = (a + n ≤ b) ⊎ (b + k ≤ a)

-- The sections do not overlap, and the image lies outside the section that it is copied to.
pub record IsValid (l : Layout) : Type 0 where
  pub data_order : l.sdata ≤ l.edata
  pub bss_order : l.sbss ≤ l.ebss
  pub image_apart : Apart l.sidata (l.edata - l.sdata) l.sdata (l.edata - l.sdata)
  pub bss_apart : Apart l.sbss (l.ebss - l.sbss) l.sdata (l.edata - l.sdata)

copy_lem :
    (n source target : ℕ) (m : Memory) (a : ℕ)
    → Apart source n target n
    → copy n source target m a ≡ (if inside target n a then m (source + (a - target)) else m a)
unfolding copy
copy_lem zero source target m a h = ground arith
copy_lem (suc n) source target m a h =
    ground (arith, copy_lem n (source + 1) (target + 1) (write m target (m source)) a)

fill_lem :
    (n target v : ℕ) (m : Memory) (a : ℕ)
    → fill n target v m a ≡ (if inside target n a then v else m a)
unfolding fill
fill_lem zero target v m a = ground arith
fill_lem (suc n) target v m a = ground (arith, fill_lem n (target + 1) v (write m target v) a)

-- Byte by byte, the memory that the constructors start with: the section of variables with initial
-- values holds its image, the section of the others is zero, and all else is as it was. The sections
-- do not overlap, and the image lies outside the section that it is copied to.
pub load_lem :
    (l : Layout) (m : Memory) (a : ℕ)
    → IsValid l
    → load l m a ≡ (
        if inside l.sdata (l.edata - l.sdata) a
        then m (l.sidata + (a - l.sdata))
        else if inside l.sbss (l.ebss - l.sbss) a
        then 0
        else m a)
unfolding load
load_lem l m a v = ground (
  arith,
  fill_lem (l.ebss - l.sbss) l.sbss 0 (copy (l.edata - l.sdata) l.sidata l.sdata m) a,
  copy_lem (l.edata - l.sdata) l.sidata l.sdata m a v.image_apart,
)
