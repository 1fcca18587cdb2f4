-- ===== src/Ethernet/TxDescriptor.antt =====
-- A transmit descriptor of the ethernet DMA, include/lwipserver/stm32h7/TxDescriptor.h. The fields
-- are `uint32_t`, and so are addresses and sizes.
pub mod Bits
use Prim.Native.Nat.{bit_and, bit_or}
use lwip_server.Base.{ℕ, ◌*◌, ◌%◌, ◌^◌, ◌≡◌, Bool, if◌then◌else◌, ◌==◌}

abbrev pub desc3_own : ℕ
desc3_own = 0x80000000

abbrev pub desc3_fd : ℕ
desc3_fd = 0x20000000

abbrev pub desc3_ld : ℕ
desc3_ld = 0x10000000

abbrev pub desc3_cic : ℕ
desc3_cic = 0x00030000

-- `std::span<uint8_t>`: where a buffer starts, and its bytes' number.
pub record Span : Type 0 where
  pub address : ℕ
  pub size : ℕ

abbrev pub no_span : Span
no_span = record { address = 0; size = 0 }

pub record TxDescriptor : Type 0 where
  pub desc0 : ℕ
  pub desc1 : ℕ
  pub desc2 : ℕ
  pub desc3 : ℕ
  pub app_data0 : ℕ
  pub app_data1 : ℕ

-- `set`; `set` is taken by the lists.
unfoldable pub set_buffers : TxDescriptor → Span → Span → ℕ → TxDescriptor
set_buffers d buf1 buf2 payload_length = record d {
  desc0 = if buf1.size == 0 then 0 else buf1.address;
  desc1 = if buf2.size == 0 then 0 else buf2.address;
  desc2 = bit_or (buf2.size * 2 ^ 16 % 2 ^ 32) buf1.size;
  desc3 = bit_or (bit_or d.desc3 desc3_cic) payload_length;
}

unfoldable pub owned_by_dma : TxDescriptor → Bool
owned_by_dma d = bit_and d.desc3 desc3_own == desc3_own

unfoldable pub set_owned : TxDescriptor → TxDescriptor
set_owned d = record d { desc3 = bit_or d.desc3 desc3_own }

unfoldable pub set_first_descriptor : TxDescriptor → TxDescriptor
set_first_descriptor d = record d { desc3 = bit_or d.desc3 desc3_fd }

unfoldable pub set_last_descriptor : TxDescriptor → TxDescriptor
set_last_descriptor d = record d { desc3 = bit_or d.desc3 desc3_ld }

unfoldable pub set_app_data : TxDescriptor → ℕ → ℕ → TxDescriptor
set_app_data d data0 data1 = record d { app_data0 = data0; app_data1 = data1 }
