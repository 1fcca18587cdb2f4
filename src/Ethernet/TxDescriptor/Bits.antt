-- ===== src/Ethernet/TxDescriptor/Bits.antt =====
-- What the fields of a descriptor hold after they are written.
use Prim.Native.Nat.{bit_or}
use lwip_server.Base.{ℕ, ◌/◌, ◌%◌, ◌^◌, ◌<◌, ◌≡◌, true, arith}
use lwip_server.Base.Bits.{bit, bit-lt, bit-bit_or, bit_or-lt, bit_or-shift, bit_and-two_pow}
use lwip_server.Ethernet.TxDescriptor.{
  TxDescriptor, Span, desc3_own, desc3_cic, set_buffers, set_owned, owned_by_dma,
}

-- A descriptor handed over is the DMA's, whatever it held before.
pub owned_by_dma-set_owned :
    (d : TxDescriptor) → d.desc3 < 2 ^ 32 → owned_by_dma (set_owned d) ≡ true
unfolding owned_by_dma set_owned
owned_by_dma-set_owned d h = ground (
  arith,
  bit_or-lt 32 d.desc3 desc3_own h (omega arith),
  bit_and-two_pow 32 31 (bit_or d.desc3 desc3_own),
  bit-bit_or 31 d.desc3 desc3_own,
  bit-lt d.desc3 31,
)

-- The sizes that the DMA reads are those of the two buffers, if they fit 16 bits.
pub set_buffers_sizes :
    (d : TxDescriptor) (buf1 buf2 : Span) (n : ℕ)
    → buf1.size < 2 ^ 16
    → buf2.size < 2 ^ 16
    → let d' = set_buffers d buf1 buf2 n in
      (d'.desc2 % 2 ^ 16 ≡ buf1.size) × (d'.desc2 / 2 ^ 16 ≡ buf2.size)
unfolding set_buffers
set_buffers_sizes d buf1 buf2 n h1 h2 = ground (arith, bit_or-shift 16 16 buf2.size buf1.size h2 h1)

-- No preparation of a descriptor clears a bit of its control word: what an earlier packet left
-- there, its length and its marks of a first or last descriptor, is still set.
set_buffers_keeps :
    (d : TxDescriptor) (buf1 buf2 : Span) (n k : ℕ)
    → bit d.desc3 k ≡ 1
    → bit (set_buffers d buf1 buf2 n).desc3 k ≡ 1
unfolding set_buffers
set_buffers_keeps d buf1 buf2 n k h = omega (
  arith,
  bit-bit_or k (bit_or d.desc3 desc3_cic) n,
  bit-bit_or k d.desc3 desc3_cic,
  bit-lt d.desc3 k,
  bit-lt desc3_cic k,
  bit-lt n k,
)
