-- ===== src/PackDeal/Laws.antt =====
-- net_packdeal.cpp: the test protocol, from the packet that comes in to the one that goes out.
use pserver.Prelude.{ℕ, List, ◌+◌, ◌≤◌, ◌≡◌, refl, ap, ◌∙◌, [], some, arith, length, All, Returns}
use pserver.Message.{Message, get_length, get_type}
use pserver.Message.Fields.{wire, new_lem, set_type_lem}
use pserver.Message.Streams.{get_fields, encode, encode_all, Fits}
use pserver.Bytes.{le_bytes, peek, peek_u16}
use pserver.Message.RoundTrip.{put_fields_lem, get_fields-put_fields}
use pserver.PackDeal.{ptl_test, targets, answer, ptl_test_reply}

abbrev pub typed : Message
typed = record { read_pos = 4; buffer = wire 1 0 []; recv_len = 0; send_begin = 0 }

abbrev fresh : Message
fresh = record { read_pos = 4; buffer = wire 0 0 []; recv_len = 0; send_begin = 0 }

answer_short : length typed.buffer + length (encode_all answer) ≤ 0xffff
unfolding encode_all encode le_bytes
answer_short = omega arith

answer-Fits : All Fits answer
answer-Fits = omega arith

-- Whatever packet comes in, `PTL_Test` answers with a packet of type 1 whose length field is right and
-- from which a reader gets back the five values that the handler wrote.
pub ptl_test_reply_lem :
    (msg : Message)
    → Returns (ptl_test_reply msg) λ r.
      (r.0 ≡ (get_fields targets msg).1)
      × (get_type r.1 ≡ some ptl_test)
      × (get_length r.1 ≡ some (length r.1.buffer))
      × ((get_fields targets r.1).1 ≡ answer)
unfolding ptl_test_reply
ptl_test_reply_lem msg =
    let (reply, put, (len, type, back)) =
      get_fields-put_fields answer targets typed 1 0 [] refl refl answer_short answer-Fits
        (refl, (refl, (refl, (refl, (refl, tt))))) in
    (
      ((get_fields targets msg).1, reply),
      rw (new_lem, set_type_lem fresh ptl_test 0 0 [] refl, put),
      (refl, type ∙ (unfold get_type peek_u16 peek in refl), len, ap (λ r. r.1) back),
    )

-- The bytes of the answer: a packet of type 1 with the five values.
abbrev pub answer_packet : List ℕ
answer_packet = wire 1 0 (encode_all answer)

pub length-answer_packet : length answer_packet ≡ 28
unfolding encode_all encode le_bytes
length-answer_packet = refl

-- The answer is the same bytes, whatever the packet.
pub ptl_test_reply_bytes :
    (msg : Message)
    → ptl_test_reply msg
      ≡ some ((get_fields targets msg).1, record typed { buffer = answer_packet })
unfolding ptl_test_reply
ptl_test_reply_bytes msg =
    rw (new_lem, set_type_lem fresh ptl_test 0 0 [] refl)
      (rw (put_fields_lem answer typed 1 0 [] refl answer-Fits))
