-- ===== src/Tests/Codec.antt =====
-- A codec for the runs: a number is written in ones, and each letter of a text has a one before it.
use Prim.Native.Char.{Char, code}
use Prim.Native.String.{[] as nil, ◌∷◌ as cons}
use curp.Command.{CurpClientCommand}
use curp.Machine.Steps.{Gob}
use curp.Prelude.{if◌then◌else◌, ◌==◌, ℕ, zero, suc, String, ◌≡◌, refl, Bool, some, arith}

abbrev is_end : Char → Bool
is_end c = code c == 122

write_number : ℕ → String → String
write_number zero rest = cons "z" rest
write_number (suc n) rest = cons "s" (write_number n rest)

write_text : String → String → String
write_text nil rest = cons "z" rest
write_text (cons c s) rest = cons "s" (cons c (write_text s rest))

read_number : String → ℕ × String
read_number nil = (0, nil)
read_number (cons c s) = let (n, rest) = read_number s in if is_end c then (0, s) else (suc n, rest)

read_text : String → String × String
read_text nil = (nil, nil)
read_text (cons d nil) = (nil, nil)
read_text (cons d (cons c s)) =
    let (t, rest) = read_text s in if is_end d then (nil, cons c s) else (cons c t, rest)

read_number-write_number : (n : ℕ) (rest : String) → read_number (write_number n rest) ≡ (n, rest)
unfolding read_number write_number
read_number-write_number zero rest = refl
read_number-write_number (suc n) rest = rw (read_number-write_number n rest) refl

read_text-write_text : (s rest : String) → read_text (write_text s rest) ≡ (s, rest)
unfolding read_text write_text
read_text-write_text nil nil = refl
read_text-write_text nil (cons c rest) = refl
read_text-write_text (cons c s) rest = rw (read_text-write_text s rest) refl

abbrev pub codec : Gob
unfolding read_number write_number read_text write_text
codec = record {
  encode = λ c. write_number c.op (
      write_number c.client_id (write_number c.seq_id (write_text c.key (write_text c.value nil))));
  decode = λ s.
      let (op, s1) = read_number s in
      let (client_id, s2) = read_number s1 in
      let (seq_id, s3) = read_number s2 in
      let (key, s4) = read_text s3 in
      let (value, s5) = read_text s4 in
      some (record { op = op; client_id = client_id; seq_id = seq_id; key = key; value = value });
}

pub codec-lossless : (c : CurpClientCommand) → codec.decode (codec.encode c) ≡ some c
unfolding codec
codec-lossless c =
    let e5 = read_text-write_text c.value nil in
    let e4 = read_text-write_text c.key (write_text c.value nil) in
    let e3 = read_number-write_number c.seq_id (write_text c.key (write_text c.value nil)) in
    let e2 =
      read_number-write_number c.client_id
        (write_number c.seq_id (write_text c.key (write_text c.value nil))) in
    let e1 = read_number-write_number c.op (
      write_number c.client_id
        (write_number c.seq_id (write_text c.key (write_text c.value nil)))) in
    ground arith
