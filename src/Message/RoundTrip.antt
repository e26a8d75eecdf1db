-- ===== src/Message/RoundTrip.antt =====
-- What `<<` writes, `>>` reads back.
use pserver.Prelude.{
  ℕ, ◌+◌, ◌%◌, ◌/◌, ◌^◌, ◌≤◌, ◌<◌, ◌≡◌, refl, sym, ap, ◌∙◌, List, [], ◌∷◌, ◌++◌, some, arith,
  length, take, drop, length-append, append_assoc, append-nil, take-append_length,
  drop-append_length, take-all, All, Returns,
}
use pserver.Bytes.{to_u16, le_bytes, length-le_bytes, le_value-le_bytes}
use pserver.Message.{
  Message, read, put_int, get_int, put_string, get_string, get_length, get_type, length_field,
}
use pserver.Message.Fields.{wire, write_lem, get_length_lem, get_type_lem}
use pserver.Message.Streams.{
  Field, int, text, put_field, put_fields, get_field, get_fields, encode, encode_all, Fits, Reads,
  AllReads,
}

pub put_field_lem :
    (f : Field) (m : Message) (a b c d : ℕ) (body : List ℕ)
    → m.buffer ≡ a ∷ b ∷ c ∷ d ∷ body
    → Fits f
    → put_field f m ≡ some (record m { buffer = wire c d (body ++ encode f) })
unfolding put_field put_int encode put_string
put_field_lem (int w v) m a b c d body e h = write_lem m (le_bytes w v) a b c d body e
put_field_lem (text []) m a b c d body e h =
    rw (append-nil, write_lem m (le_bytes 2 0) a b c d body e)
put_field_lem (text (x ∷ t)) m a b c d body e h =
    let n = length (x ∷ t) in
    let len : to_u16 n ≡ n = omega arith in
    let first = write_lem m (le_bytes 2 n) a b c d body e in
    let second =
      write_lem (record m { buffer = wire c d (body ++ le_bytes 2 n) }) (x ∷ t) _ _ c d
        (body ++ le_bytes 2 n) refl in
    rw (len, first)
      (ground (arith, second, take-all n (x ∷ t), append_assoc body (le_bytes 2 n) (x ∷ t)))

pub put_fields_lem :
    (fs : List Field) (m : Message) (c d : ℕ) (body : List ℕ)
    → m.buffer ≡ wire c d body
    → All Fits fs
    → put_fields fs m ≡ some (record m { buffer = wire c d (body ++ encode_all fs) })
unfolding put_fields encode_all
put_fields_lem [] m c d body e h = rw append-nil (cc)
put_fields_lem (f ∷ fs) m c d body e h = rw (put_field_lem f m _ _ c d body e h.0) (
    rw
      (put_fields_lem fs (record m { buffer = wire c d (body ++ encode f) }) c d (body ++ encode f)
        refl h.1)
      (rw append_assoc))

-- `bytes` stands at the reading position.
abbrev At : Message → List ℕ → List ℕ → Type 0
At m bytes post = (pre : List ℕ) × (m.buffer ≡ pre ++ (bytes ++ post)) × (m.read_pos ≡ length pre)

abbrev advance : Message → ℕ → Message
advance m n = record m { read_pos = m.read_pos + n }

read-At :
    (n : ℕ) (m : Message) (bytes post : List ℕ)
    → length bytes ≡ n
    → At m bytes post
    → length m.buffer ≤ 0xffff
    → read n m ≡ (advance m n, some bytes)
unfolding read
read-At n m bytes post k (pre, e, p) h =
    let l : length m.buffer ≡ length pre + (length bytes + length post) =
      ap length e ∙ (length-append pre _ ∙ ap (◌+◌ (length pre)) (length-append bytes post)) in
    let d : drop m.read_pos m.buffer ≡ bytes ++ post =
      rw (e, p) (drop-append_length pre (bytes ++ post)) in
    let t : take n (bytes ++ post) ≡ bytes = rw (← k) (take-append_length bytes post) in
    ground (arith, l, d, t)

get_int-At :
    (w v old : ℕ) (m : Message) (post : List ℕ)
    → v < 256 ^ w
    → At m (le_bytes w v) post
    → length m.buffer ≤ 0xffff
    → get_int w old m ≡ (advance m w, v)
unfolding get_int
get_int-At w v old m post fits at h =
    rw (read-At w m (le_bytes w v) post (length-le_bytes w v) at h, le_value-le_bytes w v fits) refl

At-advance :
    (m : Message) (xs ys post : List ℕ) (n : ℕ)
    → length xs ≡ n
    → At m (xs ++ ys) post
    → At (advance m n) ys post
At-advance m xs ys post n k (pre, e, p) = (
  pre ++ xs,
  e ∙ (ap (◌++◌ pre) (append_assoc xs ys post) ∙ sym (append_assoc pre xs (ys ++ post))),
  rw (p, length-append, k),
)

get_string-At :
    (t old : List ℕ) (m : Message) (post : List ℕ)
    → length t < 65536
    → old ≡ []
    → At m (le_bytes 2 (length t) ++ t) post
    → length m.buffer ≤ 0xffff
    → get_string old m ≡ (advance m (2 + length t), t)
unfolding get_string
get_string-At t old m post fits o (pre, e, p) h =
    let at2 : At m (le_bytes 2 (length t)) (t ++ post) =
      (pre, e ∙ ap (◌++◌ pre) (append_assoc (le_bytes 2 (length t)) t post), p) in
    let len = get_int-At 2 (length t) 0 m (t ++ post) fits at2 h in
    let (pre', e', p') =
      At-advance m (le_bytes 2 (length t)) t post 2 (length-le_bytes 2 _) (pre, e, p) in
    let l : length m.buffer ≡ length pre' + (length t + length post) =
      ap length e' ∙ (length-append pre' _ ∙ ap (◌+◌ (length pre')) (length-append t post)) in
    let d : drop (m.read_pos + 2) m.buffer ≡ t ++ post =
      rw (e', p') (drop-append_length pre' (t ++ post)) in
    rw len (ground (arith, l, d, take-append_length t post))

get_field-At :
    (f g : Field) (m : Message) (post : List ℕ)
    → Fits f
    → Reads f g
    → At m (encode f) post
    → length m.buffer ≤ 0xffff
    → get_field g m ≡ (advance m (length (encode f)), f)
unfolding get_field encode
get_field-At (int w v) (int w' old) m post fits e at h =
    rw (e, get_int-At w v old m post fits at h, length-le_bytes w v) refl
get_field-At (int w v) (text old) m post fits e at h = absurd e
get_field-At (text t) (int w old) m post fits e at h = absurd e
get_field-At (text t) (text old) m post fits e at h =
    rw (get_string-At t old m post fits e at h, length-append, length-le_bytes) refl

get_fields-At :
    (fs gs : List Field) (m : Message) (post : List ℕ)
    → All Fits fs
    → AllReads fs gs
    → At m (encode_all fs) post
    → length m.buffer ≤ 0xffff
    → get_fields gs m ≡ (advance m (length (encode_all fs)), fs)
unfolding get_fields encode_all
get_fields-At [] [] m post fits e at h = ground arith
get_fields-At [] (g ∷ gs) m post fits e at h = absurd e
get_fields-At (f ∷ fs) [] m post fits e at h = absurd e
get_fields-At (f ∷ fs) (g ∷ gs) m post fits e (pre, q, p) h =
    let at1 : At m (encode f) (encode_all fs ++ post) =
      (pre, q ∙ ap (◌++◌ pre) (append_assoc (encode f) (encode_all fs) post), p) in
    let at2 = At-advance m (encode f) (encode_all fs) post _ refl (pre, q, p) in
    rw
      (
        get_field-At f g m (encode_all fs ++ post) fits.0 e.0 at1 h,
        get_fields-At fs gs (advance m (length (encode f))) post fits.1 e.1 at2 h,
      )
      (ground (arith, length-append (encode f) (encode_all fs)))

-- A chain of `<<` on a packet whose header is filled in, and the same chain of `>>` from the end
-- that it had: every value comes back, reading stops at the new end, the type is kept and the
-- length in the header is right. The values lie in their types, the whole packet is at most 65535
-- bytes long, and strings are read into empty variables.
pub get_fields-put_fields :
    (fs gs : List Field) (m : Message) (c d : ℕ) (body : List ℕ)
    → m.buffer ≡ wire c d body
    → m.read_pos ≡ length m.buffer
    → length m.buffer + length (encode_all fs) ≤ 0xffff
    → All Fits fs
    → AllReads fs gs
    → Returns (put_fields fs m) λ m'.
      (get_length m' ≡ some (length m'.buffer))
      × (get_type m' ≡ get_type m)
      × (get_fields gs m' ≡ (record m' { read_pos = length m'.buffer }, fs))
get_fields-put_fields fs gs m c d body e p h fits reads =
    let enc = encode_all fs in
    let m' : Message = record m { buffer = wire c d (body ++ enc) } in
    let short : length m'.buffer ≤ 0xffff = omega (arith, ap length e, length-append body enc) in
    let field = length_field (length m'.buffer) in
    let at : At m' enc [] =
      (field % 256 ∷ field / 256 % 256 ∷ c ∷ d ∷ body, rw append-nil refl, p ∙ ap length e) in
    (
      m',
      put_fields_lem fs m c d body e fits,
      (
        get_length_lem m' c d (body ++ enc) refl short,
        get_type_lem m' c d (body ++ enc) refl ∙ sym (get_type_lem m c d body e),
        rw (get_fields-At fs gs m' [] fits reads at short)
            (ground (arith, ap length e, length-append body enc)),
      ),
    )
