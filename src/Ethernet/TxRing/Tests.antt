-- ===== src/Ethernet/TxRing/Tests.antt =====
-- The descriptors and their ring at concrete inputs.
use lwip_server.Base.{◌<◌, zero, suc, false, ◌≡◌, refl, some, [], ◌∷◌, arith, set, get_or}
use lwip_server.Ethernet.TxDescriptor.{TxDescriptor, Span, owned_by_dma, set_owned, set_app_data}
use lwip_server.Ethernet.TxRing.{
  TxRing, Packet, err_if, err_ok, blank, low_level_output, release_tx_buffers, prepare,
  take_descriptor, fill, give_back,
}
use lwip_server.Ethernet.TxRing.Ownership.{Narrow}
use lwip_server.Ethernet.TxRing.Valid.{IsValid, payloads, pending}
use lwip_server.Ethernet.TxRing.Output.{Sends, low_level_output-Sends}
use lwip_server.Ethernet.TxRing.Release.{Released, release_tx_buffers-Released}
use lwip_server.Ethernet.TxRing.History.{
  started, output, release, dma, referenced, Balanced, History-Balanced,
}
use lwip_server.Ethernet.TxRing.Lifetime.{
  here, next, dma as written_back, write_back, IsFull, full_forever,
}
use lwip_server.Ethernet.TxRing.WrittenBack.{
  started as none_yet, output as given, dma as handed_back, renew, returned, Life-Earned,
}
use lwip_server.Ethernet.TxRing.Earned.{Earned}
use lwip_server.Ethernet.TxRing.Recovery.{AllBack, emptied, release-accepts}

abbrev used : TxDescriptor
used = record blank { desc3 = 0x30030040; app_data0 = 0x500 }

abbrev header : Span
header = record { address = 0x30044000; size = 54 }

abbrev body : Span
body = record { address = 0x30044100; size = 1460 }

abbrev start : TxRing
start = record {
  descriptors = blank ∷ blank ∷ blank ∷ blank ∷ [];
  available_index = 0;
  available_size = 4;
  unavailable_index = 0;
}

start-IsValid : IsValid start
start-IsValid = record {
  table = refl;
  available_in = omega arith;
  unavailable_in = omega arith;
  size_in = omega arith;
  joined = refl;
}

abbrev packet : Packet
packet = record { address = 0x900; bufs = header ∷ body ∷ body ∷ [] }

low_level_output-Sends_example : Sends packet start (low_level_output packet start)
low_level_output-Sends_example =
    low_level_output-Sends packet start start-IsValid (omega arith) (omega arith)

two_descriptors : (low_level_output packet start).2.available_index ≡ 2
unfolding low_level_output fill prepare take_descriptor
two_descriptors = refl

-- Two packets under way, the older one written back by the DMA.
abbrev busy : TxRing
busy = record {
  descriptors =
      blank
      ∷ blank
      ∷ record used { desc3 = 0x30030040 }
      ∷ record used { desc3 = 0xB0030040; app_data0 = 0x600 }
      ∷ [];
  available_index = 0;
  available_size = 2;
  unavailable_index = 2;
}

busy-IsValid : IsValid busy
busy-IsValid = record {
  table = refl;
  available_in = omega arith;
  unavailable_in = omega arith;
  size_in = omega arith;
  joined = refl;
}

frees_one :
    release_tx_buffers 5 busy
    ≡ some (0x500 ∷ [], record busy { available_size = 3; unavailable_index = 3 })
unfolding release_tx_buffers owned_by_dma
frees_one = refl

release_tx_buffers-Released_example : Released busy (release_tx_buffers 5 busy)
release_tx_buffers-Released_example = release_tx_buffers-Released 5 busy busy-IsValid (omega arith)

-- Four packets of one buffer each, sent before the first release.
abbrev ping : Packet
ping = record { address = 0x700; bufs = header ∷ [] }

filled : TxRing
filled = sent_packet (sent_packet (sent_packet (sent_packet start)))
  where
    sent_packet : TxRing → TxRing
    sent_packet r = (low_level_output ping r).2

filled-IsFull : IsFull filled
unfolding filled low_level_output fill prepare take_descriptor
filled-IsFull = record {
  valid = record {
    table = refl;
    available_in = omega arith;
    unavailable_in = omega arith;
    size_in = omega arith;
    joined = refl;
  };
  none_free = refl;
}

-- The DMA has sent the first of them.
abbrev written : TxRing
written = record filled {
  descriptors = set filled.descriptors 0 (record (get_or filled.descriptors 0 blank) {
    desc0 = 0x30044000;
    desc1 = 0;
    desc2 = 54;
    desc3 = 0x30030036;
  });
}

full_forever_example : low_level_output packet written ≡ (err_if, [], written)
full_forever_example =
    full_forever packet filled-IsFull (next here (written_back 0 (0x30044000, 0, 54, 0x30030036)))
      (omega arith) (omega arith)

-- One packet is sent, the DMA writes its descriptor back, and the driver releases it.
abbrev pinged : TxRing
pinged = write_back (low_level_output ping start).2 0 (0x30044000, 0, 54, 0x30030036)

ping_released : TxRing
unfolding give_back
ping_released = give_back pinged

frees_ping : release_tx_buffers 5 pinged ≡ some (0x700 ∷ [], ping_released)
unfolding release_tx_buffers owned_by_dma low_level_output fill prepare take_descriptor
    ping_released set_owned set_app_data
frees_ping = refl

start_empty : pending start ≡ []
unfolding pending payloads
start_empty = refl

History-Balanced_example :
    Balanced (referenced (low_level_output ping start).1) (0x700 ∷ []) ping_released
History-Balanced_example =
    let taken = referenced (low_level_output ping start).1 in
    History-Balanced start taken (0x700 ∷ []) ping_released start-IsValid start_empty (
      release taken [] pinged (0x700 ∷ []) ping_released
        (dma taken [] (low_level_output ping start).2 0 (0x30044000, 0, 54, 0x30030036)
          (output [] [] start ping started (omega arith) (omega arith)))
        frees_ping)

start-Narrow : Narrow start.descriptors
start-Narrow zero = omega arith
start-Narrow (suc zero) = omega arith
start-Narrow (suc (suc zero)) = omega arith
start-Narrow (suc (suc (suc zero))) = omega arith
start-Narrow (suc (suc (suc (suc i)))) = omega arith

Life-Earned_example :
    Earned (returned 0 (renew start (λ _. false))) pinged (release_tx_buffers 5 pinged)
Life-Earned_example =
    Life-Earned start (returned 0 (renew start (λ _. false))) pinged start-IsValid start-Narrow refl
      (handed_back (renew start (λ _. false)) (low_level_output ping start).2 0
        (0x30044000, 0, 54, 0x30030036) (given (λ _. false) start ping none_yet) (omega arith)
        (omega arith))

pinged_back : AllBack pinged
unfolding owned_by_dma low_level_output fill prepare take_descriptor set_owned set_app_data
pinged_back zero h = refl
pinged_back (suc k) h = absurd (omega arith)

pinged-IsValid : IsValid pinged
unfolding low_level_output fill prepare take_descriptor
pinged-IsValid = record {
  table = refl;
  available_in = omega arith;
  unavailable_in = omega arith;
  size_in = omega arith;
  joined = refl;
}

pinged_room : 0 < pinged.available_size
unfolding low_level_output fill prepare take_descriptor
pinged_room = omega arith

release-accepts_example :
    (release_tx_buffers 5 pinged ≡ some (pending pinged, emptied pinged))
    × ((low_level_output packet (emptied pinged)).0 ≡ err_ok)
release-accepts_example =
    release-accepts packet pinged pinged-IsValid pinged_room pinged_back (omega arith) (omega arith)
      (omega arith)
