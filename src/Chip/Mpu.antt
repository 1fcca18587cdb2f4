-- ===== src/Chip/Mpu.antt =====
-- `Base::mpuConfig` of src/stm32h7/Base.cpp: the calls that it makes of the HAL, in order. The heap's
-- place and size are those of include/lwipopts.h.
pub mod Regions
use lwip_server.Base.{ℕ, ◌*◌, ◌^◌, Bool, true, false, List, [], ◌∷◌}

pub data Access : Type 0 where
  no_access full_access : Access

-- `MPU_Region_InitTypeDef`, with its size in bytes.
pub record Region : Type 0 where
  pub enable : Bool
  pub base_address : ℕ
  pub size : ℕ
  pub access_permission : Access
  pub is_bufferable : Bool
  pub is_cacheable : Bool
  pub is_shareable : Bool
  pub number : ℕ
  pub type_ext_field : ℕ
  pub sub_region_disable : ℕ
  pub disable_exec : Bool

pub data MpuCall : Type 0 where
  disable : MpuCall
  config_region : Region → MpuCall
  enable_privileged_default : MpuCall

abbrev pub lwip_ram_heap_pointer : ℕ
lwip_ram_heap_pointer = 0x30044000

abbrev pub mem_size : ℕ
mem_size = 10 * 1024

-- Strongly ordered, for what is not defined.
abbrev pub background_region : Region
background_region = record {
  enable = true;
  base_address = 0;
  size = 2 ^ 32;
  access_permission = no_access;
  is_bufferable = false;
  is_cacheable = false;
  is_shareable = true;
  number = 0;
  type_ext_field = 0;
  sub_region_disable = 0x87;
  disable_exec = true;
}

-- The descriptors of the ethernet DMA.
abbrev pub descriptor_region : Region
descriptor_region = record {
  enable = true;
  base_address = 0x30000000;
  size = 2 * 1024;
  access_permission = full_access;
  is_bufferable = true;
  is_cacheable = false;
  is_shareable = false;
  number = 1;
  type_ext_field = 0;
  sub_region_disable = 0;
  disable_exec = false;
}

-- lwIP's heap, which holds the buffers that are sent.
abbrev pub heap_region : Region
heap_region = record {
  enable = true;
  base_address = lwip_ram_heap_pointer;
  size = 16 * 1024;
  access_permission = full_access;
  is_bufferable = false;
  is_cacheable = false;
  is_shareable = true;
  number = 2;
  type_ext_field = 1;
  sub_region_disable = 0;
  disable_exec = false;
}

unfoldable pub mpu_config : List MpuCall
mpu_config =
    disable
    ∷ config_region background_region
    ∷ config_region descriptor_region
    ∷ config_region heap_region
    ∷ enable_privileged_default
    ∷ []
