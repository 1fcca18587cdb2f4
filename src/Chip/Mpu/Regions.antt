-- ===== src/Chip/Mpu/Regions.antt =====
-- Which region governs an address once `mpuConfig` has run (src/stm32h7/Base.cpp), by the rules of
-- the ARMv7-M architecture: of the enabled regions that cover an address the one with the highest
-- number governs it; an eighth of a region can be disabled; elsewhere the default map holds.
use lwip_server.Base.{
  ℕ, zero, suc, ◌*◌, ◌+◌, ◌-◌, ◌/◌, ◌^◌, ◌<◌, ◌≡◌, refl, Bool, true, false, ◌&&◌, Option, none,
  some, List, [], ◌∷◌, ltb, leb, arith, ◌==◌, if◌then◌else◌, ==_iff,
}
use lwip_server.Base.Bits.{bit, bit-zero, all_below, all_below-eq}
use lwip_server.Chip.Mpu.{
  Access, no_access, full_access, Region, MpuCall, disable, config_region,
  enable_privileged_default, mpu_config, background_region, descriptor_region, heap_region,
}

pub record Mpu : Type 0 where
  pub is_on : Bool
  pub regions : ℕ → Option Region

abbrev pub call : MpuCall → Mpu → Mpu
call disable u = record u { is_on = false }
call (config_region r) u = record u { regions = λ n. if r.number == n then some r else u.regions n }
call enable_privileged_default u = record u { is_on = true }

abbrev pub calls : List MpuCall → Mpu → Mpu
calls [] u = u
calls (c ∷ cs) u = calls cs (call c u)

abbrev pub covers : Region → ℕ → Bool
covers r a =
    r.enable
    && leb r.base_address a
    && ltb a (r.base_address + r.size)
    && bit r.sub_region_disable ((a - r.base_address) / (r.size / 8)) == 0

abbrev pub better : Option Region → ℕ → Option Region → Option Region
better none a o = o
better (some r) a o = if covers r a then some r else o

-- The region that governs, of those with a number below n.
abbrev pub governing : ℕ → Mpu → ℕ → Option Region
governing zero u a = none
governing (suc n) u a = better (u.regions n) a (governing n u a)

abbrev pub after_reset : Mpu
after_reset = record { is_on = false; regions = λ n. none }

abbrev pub configured : Mpu
configured = calls mpu_config after_reset

abbrev in_use : ℕ → ℕ
in_use k = if leb 3 k && ltb k 7 then 0 else 1

subregions-table : all_below 8 (λ k. bit 0x87 k == in_use k) ≡ true
unfolding all_below
subregions-table = refl

subregions : (k : ℕ) → k < 8 → bit 0x87 k ≡ in_use k
subregions k h = (==_iff _ _).0 (all_below-eq 8 _ k subregions-table h)

background-covers :
    (a : ℕ) → a < 2 ^ 32 → covers background_region a ≡ (leb 0x60000000 a && ltb a 0xE0000000)
background-covers a h = ground (arith, subregions (a / (2 ^ 32 / 8)))

descriptor-covers : (a : ℕ) → covers descriptor_region a ≡ (leb 0x30000000 a && ltb a 0x30000800)
descriptor-covers a = ground (arith, bit-zero ((a - 0x30000000) / (2048 / 8)))

heap-covers : (a : ℕ) → covers heap_region a ≡ (leb 0x30044000 a && ltb a 0x30048000)
heap-covers a = ground (arith, bit-zero ((a - 0x30044000) / (16 * 1024 / 8)))

-- What a region says of the memory that it governs.
pub record Attributes : Type 0 where
  pub access_permission : Access
  pub is_cacheable : Bool
  pub is_bufferable : Bool
  pub is_shareable : Bool
  pub disable_exec : Bool

abbrev pub attributes : Option Region → Option Attributes
attributes none = none
attributes (some r) = some (record {
  access_permission = r.access_permission;
  is_cacheable = r.is_cacheable;
  is_bufferable = r.is_bufferable;
  is_shareable = r.is_shareable;
  disable_exec = r.disable_exec;
})

-- After a reset and `mpuConfig`, for every address of 32 bits, the MPU is on. lwIP's heap, the 16 KB
-- from 0x30044000 on, is not cacheable and not bufferable but shareable; the descriptors, the 2 KB
-- from 0x30000000 on, are not cacheable and not shareable but bufferable; in both all access is
-- allowed, code included. Between 0x60000000 and 0xE0000000 no access is allowed and no code. No
-- region governs any other address, the pool of receive buffers behind the descriptors among them.
pub mpu_config-governing :
    (a : ℕ)
    → a < 2 ^ 32
    → (configured.is_on ≡ true)
      × (attributes (governing 16 configured a) ≡ (
          if leb 0x30044000 a && ltb a 0x30048000
          then some (record {
            access_permission = full_access;
            is_cacheable = false;
            is_bufferable = false;
            is_shareable = true;
            disable_exec = false;
          })
          else if leb 0x30000000 a && ltb a 0x30000800
          then some (record {
            access_permission = full_access;
            is_cacheable = false;
            is_bufferable = true;
            is_shareable = false;
            disable_exec = false;
          })
          else if leb 0x60000000 a && ltb a 0xE0000000
          then some (record {
            access_permission = no_access;
            is_cacheable = false;
            is_bufferable = false;
            is_shareable = true;
            disable_exec = true;
          })
          else none))
unfolding mpu_config
mpu_config-governing a h =
    (refl, rw (heap-covers a, descriptor-covers a, background-covers a h) (ground arith))
