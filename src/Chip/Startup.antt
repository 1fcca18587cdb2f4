-- ===== src/Chip/Startup.antt =====
-- `Reset_Handler` of src/stm32h7/Startup.cpp: the memory that the application starts with. The
-- addresses are the linker's symbols; `System_Init` writes registers, which are no part of this
-- memory.
pub mod Loaded
use lwip_server.Base.{ℕ, zero, suc, ◌+◌, ◌-◌, List, [], ◌∷◌, ◌==◌, if◌then◌else◌}

-- The bytes by address.
abbrev pub Memory : Type 0
Memory = ℕ → ℕ

pub record Layout : Type 0 where
  pub sidata : ℕ
  pub sdata : ℕ
  pub edata : ℕ
  pub sbss : ℕ
  pub ebss : ℕ

abbrev pub write : Memory → ℕ → ℕ → Memory
write m a v b = if a == b then v else m b

-- `std::copy`, which goes upwards: n bytes from `source` to `target`.
unfoldable pub copy : ℕ → ℕ → ℕ → Memory → Memory
copy zero source target m = m
copy (suc n) source target m = copy n (source + 1) (target + 1) (write m target (m source))

-- `std::fill`: n bytes from `target`.
unfoldable pub fill : ℕ → ℕ → ℕ → Memory → Memory
fill zero target v m = m
fill (suc n) target v m = fill n (target + 1) v (write m target v)

-- The two sections, as they are when the constructors start.
unfoldable pub load : Layout → Memory → Memory
unfolding copy fill
load l m =
    let size = l.edata - l.sdata in fill (l.ebss - l.sbss) l.sbss 0 (copy size l.sidata l.sdata m)

-- The functions of the section `.init_array`, in order.
unfoldable pub construct : List (Memory → Memory) → Memory → Memory
construct [] m = m
construct (f ∷ fs) m = construct fs (f m)

-- What `main` is called with.
unfoldable pub reset_handler : Layout → List (Memory → Memory) → Memory → Memory
unfolding load construct
reset_handler l init_array m = construct init_array (load l m)
