-- ===== src/Nt4/MsgPack/Tests.antt =====
-- Runs of the encoder and the decoder of apps/control/src/nt4-auto.ts.
use code_runner.Prelude.{[], ◌∷◌, true, ◌≡◌, refl, arith, ◌%◌, map}
use code_runner.Prelude.Texts.{codes}
use code_runner.Nt4.Number.{whole}
use code_runner.Nt4.MsgPack.{
  TextCodec, Value, bool, num, str, arr, end, item, ok, malformed, array_too_large, unsupported,
  shape_of, read_text, with_length, read_array, count, encode_msg_pack, decode_msg_pack,
}
use code_runner.Nt4.MsgPack.RoundTrip.{IsEncodable, decode_msg_pack-encode_msg_pack}

-- A codec that keeps seven bits of each code unit.
abbrev pub ascii : TextCodec
ascii = record { encode = λ s. map (λ c. c % 128) s; decode = λ bs. bs }

abbrev pub sample : Value
sample = arr (
    item (num (whole 70000))
      (item (num (whole 5)) (item (bool true) (item (str (codes "Auto")) end))))

empty_frame : decode_msg_pack ascii [] ≡ ok end
unfolding decode_msg_pack
empty_frame = refl

never_used : decode_msg_pack ascii (0xc1 ∷ []) ≡ unsupported
unfolding decode_msg_pack shape_of
never_used = refl

cut_short : decode_msg_pack ascii (0xa4 ∷ 65 ∷ []) ≡ malformed
unfolding decode_msg_pack shape_of read_text
cut_short = refl

too_large : decode_msg_pack ascii (0xdd ∷ 1 ∷ 0 ∷ 0 ∷ 0 ∷ []) ≡ array_too_large
unfolding decode_msg_pack shape_of with_length read_array
too_large = refl

sample-IsEncodable : IsEncodable ascii sample
unfolding count
sample-IsEncodable = (omega arith, (omega arith, (omega arith, (tt, ((omega arith, refl), tt)))))

decode_msg_pack-encode_msg_pack_example :
    decode_msg_pack ascii (encode_msg_pack ascii sample) ≡ ok (item sample end)
decode_msg_pack-encode_msg_pack_example =
    decode_msg_pack-encode_msg_pack ascii sample sample-IsEncodable
