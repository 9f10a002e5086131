-- ===== src/Protocol/Tests.antt =====
-- A message with escapes and a payload, and a decimal notation that pads with zeros.
use tenclaw.Base.{
  ℕ, zero, suc, ◌+◌, ◌-◌, ◌*◌, ◌/◌, ◌%◌, ◌<◌, ◌≡◌, refl, ap₂, ◌≢◌, Bool, true, ◌&&◌, some, [], ◌∷◌,
  ◌++◌, arith, ltb, leb, All,
}
use tenclaw.Protocol.{
  Bytes, codes, Message, display, event, protocol_version, encode_header, decode,
}
use tenclaw.Protocol.Header.{IsDigit, all_fields}
use tenclaw.Protocol.Fields.{Decimal}
use tenclaw.Protocol.Decode.{IsMessage, decode-encode_header}

abbrev print : ℕ → ℕ → Bytes
print zero n = []
print (suc k) n = print k (n / 10) ++ ((48 + n % 10) ∷ [])

abbrev to_text : ℕ → Bytes
to_text n = print 20 n

abbrev value : ℕ → Bytes → ℕ
value acc [] = acc
value acc (d ∷ s) = value (acc * 10 + (d - 48)) s

abbrev all_digits : Bytes → Bool
all_digits [] = true
all_digits (d ∷ s) = leb 48 d && (ltb d 58 && all_digits s)

abbrev strtoull : Bytes → ℕ × Bool
strtoull s = (value 0 s, all_digits s)

abbrev pow10 : ℕ → ℕ
pow10 zero = 1
pow10 (suc k) = 10 * pow10 k

value-append : (acc d : ℕ) (s : Bytes) → value acc (s ++ (d ∷ [])) ≡ value acc s * 10 + (d - 48)
value-append acc d [] = refl
value-append acc d (b ∷ s) = value-append (acc * 10 + (b - 48)) d s

value-print : (k n : ℕ) → n < pow10 k → value 0 (print k n) ≡ n
value-print zero n h = omega arith
value-print (suc k) n h =
    rw (value-append 0 (48 + n % 10) (print k (n / 10)), value-print k (n / 10) (omega arith))
      (omega arith)

digits-append : (s t : Bytes) → All IsDigit s → All IsDigit t → All IsDigit (s ++ t)
digits-append [] t h k = k
digits-append (b ∷ s) t h k = (h.0, digits-append s t h.1 k)

print-digits : (k n : ℕ) → All IsDigit (print k n)
print-digits zero n = tt
print-digits (suc k) n = digits-append (print k (n / 10)) _ (print-digits k (n / 10)) (ground arith)

all_digits_lem : (s : Bytes) → All IsDigit s → all_digits s ≡ true
all_digits_lem [] h = refl
all_digits_lem (d ∷ s) h = let ih = all_digits_lem s h.1 in ground (arith, ih)

append_some : (s : Bytes) (d : ℕ) → s ++ (d ∷ []) ≢ []
append_some [] d h = absurd (ground arith)
append_some (b ∷ s) d h = absurd (ground arith)

decimal : Decimal to_text strtoull
decimal = record {
  digits = λ n h. print-digits 20 n;
  some_digit = λ n h. append_some (print 19 (n / 10)) (48 + n % 10);
  parses = λ n h.
      ap₂ (λ v w. (v, w)) (value-print 20 n (omega arith))
        (all_digits_lem (to_text n) (print-digits 20 n));
}

abbrev frame : Message
frame = record {
  version = protocol_version;
  channel = display;
  kind = event;
  type = codes "display.frame";
  vm_id = codes "vm\t=7";
  request_id = 42;
  fields = (codes "w\ti", codes "1\n=2") ∷ (codes "height", codes "768") ∷ [];
  payload = 1 ∷ 2 ∷ 3 ∷ [];
}

frame-IsMessage : IsMessage to_text frame
frame-IsMessage = ground arith

decode-encode_header_example :
    decode strtoull (encode_header to_text frame)
    ≡ some (record frame { fields = all_fields to_text frame; payload = [] })
decode-encode_header_example = decode-encode_header to_text strtoull decimal frame frame-IsMessage
