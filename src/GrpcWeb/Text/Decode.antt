-- ===== src/GrpcWeb/Text/Decode.antt =====
-- Decoding text that is cut into chunks, against decoding it at once.
use rginx.Prelude.{
  ◌%◌, ◌<◌, ◌≤◌, ◌≡◌, refl, sym, ap, ◌∙◌, inl, inr, Bool, true, false, not, some, List, [], ◌∷◌,
  ◌++◌, length, take, drop, filter, unwrap_or, ◌==◌, if◌then◌else◌, arith, Bool-cases, append_assoc,
  append-nil, length-append, length-take, length-drop, take-append-drop, All, Bytes, Result, err,
  ok, and_then, Result-cases,
}
use rginx.GrpcWeb.{
  Base64, InvalidBody, decode_quanta, full_quanta, unless_empty, is_ascii_whitespace,
  decode_grpc_web_text_chunk, decode_grpc_web_text_final,
}
use rginx.GrpcWeb.Text.{
  Base64Laws, concat, encode_chunks, decode_chunks, full_quanta-bounds, encode_chunks-concat,
}

-- The bytes of a text that count.
abbrev pub printed : Bytes → Bytes
printed s = filter (λ c. not (is_ascii_whitespace c)) s

printed-append : (s t : Bytes) → printed (s ++ t) ≡ printed s ++ printed t
printed-append [] t = refl
printed-append (c ∷ s) t = elim (Bool-cases (is_ascii_whitespace c)) [
  | inl e ↦ rw (e, printed-append s t) refl
  | inr e ↦ rw (e, printed-append s t) refl
]

-- Three steps in a row, in either grouping.
chain :
    (r q p : Result InvalidBody Bytes)
    → and_then r
        (λ c. and_then (and_then q (λ a. and_then p (λ b. ok (a ++ b)))) (λ d. ok (c ++ d)))
      ≡ and_then
          (and_then r (λ c. and_then q (λ d. ok (c ++ d))))
          (λ a. and_then p (λ b. ok (a ++ b)))
chain (err e) q p = refl
chain (ok c) (err e) p = refl
chain (ok c) (ok a) (err e) = refl
chain (ok c) (ok a) (ok b) = ap ok (sym (append_assoc c a b))

-- Whether the bytes that are left are whole.
abbrev pub if_whole : Bool → Bytes → Result InvalidBody Bytes
if_whole whole decoded = if whole then ok decoded else err InvalidBody.incomplete_base64

first-rest :
    (r q : Result InvalidBody Bytes) (p : Bool)
    → and_then
        (and_then r (λ d. ok (unless_empty d)))
        (λ first. and_then (and_then q (if_whole p)) (λ rest. ok (unwrap_or first [] ++ rest)))
      ≡ and_then (and_then r (λ a. and_then q (λ b. ok (a ++ b)))) (if_whole p)
first-rest (err e) q p = refl
first-rest (ok a) (err e) p = refl
first-rest (ok a) (ok b) false = refl
first-rest (ok []) (ok b) true = refl
first-rest (ok (c ∷ a)) (ok b) true = refl

ok-same : (r : Result InvalidBody Bytes) → and_then r (λ rest. ok ([] ++ rest)) ≡ r
ok-same (err e) = refl
ok-same (ok v) = refl

module _ (base64 : Base64) where
  -- The whole text at once: each quantum is decoded, and bytes that are left over are an error.
  abbrev pub decode_at_once : Bytes → Result InvalidBody Bytes
  decode_at_once text = and_then (decode_quanta base64 text) (if_whole (length text % 4 == 0))

  decode_quanta-short : (s : Bytes) → length s < 4 → decode_quanta base64 s ≡ ok []
  unfolding decode_quanta
  decode_quanta-short [] h = refl
  decode_quanta-short (a ∷ []) h = refl
  decode_quanta-short (a ∷ b ∷ []) h = refl
  decode_quanta-short (a ∷ b ∷ c ∷ []) h = refl
  decode_quanta-short (a ∷ b ∷ c ∷ d ∷ s) h = absurd (omega (arith, h))

  decode_quanta-append :
      (xs ys : Bytes)
      → length xs % 4 ≡ 0
      → decode_quanta base64 (xs ++ ys)
        ≡ and_then
            (decode_quanta base64 xs)
            (λ a. and_then (decode_quanta base64 ys) (λ b. ok (a ++ b)))
  unfolding decode_quanta
  decode_quanta-append [] ys h = elim (Result-cases (decode_quanta base64 ys)) [
    | inl (f, e) ↦ rw e refl
    | inr (v, e) ↦ rw e refl
  ]
  decode_quanta-append (a ∷ []) ys h = absurd (omega (arith, h))
  decode_quanta-append (a ∷ b ∷ []) ys h = absurd (omega (arith, h))
  decode_quanta-append (a ∷ b ∷ c ∷ []) ys h = absurd (omega (arith, h))
  decode_quanta-append (a ∷ b ∷ c ∷ d ∷ xs) ys h =
      rw (decode_quanta, decode_quanta-append xs ys (omega (arith, h)))
        (chain _ (decode_quanta base64 xs) (decode_quanta base64 ys))

  decode_chunks-at_once :
      (carryover : Bytes) (chunks : List Bytes)
      → length carryover < 4
      → decode_chunks base64 carryover chunks
        ≡ decode_at_once (carryover ++ printed (concat chunks))
  unfolding decode_grpc_web_text_chunk decode_grpc_web_text_final
  decode_chunks-at_once [] [] h = rw (decode_quanta-short [] h) refl
  decode_chunks-at_once (c ∷ carryover) [] h =
      let part : (length (c ∷ carryover) % 4 == 0) ≡ false = ground (arith, h) in
      rw (append-nil carryover, decode_quanta-short (c ∷ carryover) h, part) refl
  decode_chunks-at_once carryover (chunk ∷ chunks) h =
      let text = carryover ++ printed chunk in
      let more = printed (concat chunks) in
      let n = full_quanta 4 text in
      let (le, lt) = full_quanta-bounds 4 text (omega arith) in
      let all : carryover ++ printed (chunk ++ concat chunks) ≡ text ++ more =
        ap (◌++◌ carryover) (printed-append chunk (concat chunks))
        ∙ sym (append_assoc carryover (printed chunk) more) in
      elim (Bool-cases (n == 0)) [
        | inl e ↦
            rw (all, decode_grpc_web_text_chunk, e)
              (ok-same (decode_chunks base64 text chunks)
                ∙ decode_chunks-at_once text chunks (ground (arith, e, lt)))
        | inr e ↦
            let whole : length (take n text) % 4 ≡ 0 = omega (arith, length-take n text, le) in
            let parts : text ++ more ≡ take n text ++ (drop n text ++ more) =
              ap (λ s. s ++ more) (sym (take-append-drop n text))
              ∙ append_assoc (take n text) (drop n text) more in
            let tail : (length (take n text ++ (drop n text ++ more)) % 4 == 0)
                ≡ (length (drop n text ++ more) % 4 == 0) =
              ap (λ k. k == 0)
                (omega (arith, length-append (take n text) (drop n text ++ more), whole)) in
            let short : length (drop n text) < 4 = omega (arith, length-drop n text, lt) in
            rw
              (
                all,
                decode_grpc_web_text_chunk,
                e,
                decode_chunks-at_once (drop n text) chunks short,
                parts,
                tail,
                decode_quanta-append (take n text) (drop n text ++ more) whole,
              )
              (first-rest (decode_quanta base64 (take n text))
                (decode_quanta base64 (drop n text ++ more))
                (length (drop n text ++ more) % 4 == 0))
      ]

  module _ (laws : Base64Laws base64) where
    printed-same : (s : Bytes) → All (λ c. is_ascii_whitespace c ≡ false) s → printed s ≡ s
    printed-same [] h = refl
    printed-same (c ∷ s) (e, h) = rw (e, printed-same s h) refl

    -- One group in front of a text.
    decode_quanta-quantum :
        (quantum q text : Bytes)
        → length quantum ≡ 4
        → base64.decode quantum ≡ some q
        → decode_quanta base64 (quantum ++ text)
          ≡ and_then (decode_quanta base64 text) (λ rest. ok (q ++ rest))
    unfolding decode_quanta
    decode_quanta-quantum [] q text h e = absurd (omega (arith, h))
    decode_quanta-quantum (a ∷ []) q text h e = absurd (omega (arith, h))
    decode_quanta-quantum (a ∷ b ∷ []) q text h e = absurd (omega (arith, h))
    decode_quanta-quantum (a ∷ b ∷ c ∷ []) q text h e = absurd (omega (arith, h))
    decode_quanta-quantum (a ∷ b ∷ c ∷ d ∷ []) q text h e = rw (decode_quanta, e) refl
    decode_quanta-quantum (a ∷ b ∷ c ∷ d ∷ f ∷ s) q text h e = absurd (omega (arith, h))

    decode_quanta-group :
        (q text : Bytes)
        → 0 < length q
        → length q ≤ 3
        → decode_quanta base64 (base64.encode q ++ text)
          ≡ and_then (decode_quanta base64 text) (λ rest. ok (q ++ rest))
    decode_quanta-group q text h k =
        decode_quanta-quantum (base64.encode q) q text (laws.length-encode q h k)
          (laws.decode-encode q h k)

    -- The text of a last group.
    decode_quanta-last :
        (q : Bytes)
        → 0 < length q
        → length q ≤ 3
        → (decode_quanta base64 (base64.encode q) ≡ ok q) × (length (base64.encode q) % 4 ≡ 0)
    decode_quanta-last q h k = (
      ap (decode_quanta base64) (sym (append-nil (base64.encode q)))
          ∙ decode_quanta-group q [] h k
          ∙ rw (decode_quanta-short [] (omega arith), append-nil q) refl,
      omega (arith, laws.length-encode q h k),
    )

    encode-decoded :
        (s : Bytes)
        → (decode_quanta base64 (base64.encode s) ≡ ok s) × (length (base64.encode s) % 4 ≡ 0)
    encode-decoded [] = rw laws.encode-nil (decode_quanta-short [] (omega arith), refl)
    encode-decoded (a ∷ []) = decode_quanta-last (a ∷ []) (omega arith) (omega arith)
    encode-decoded (a ∷ b ∷ []) = decode_quanta-last (a ∷ b ∷ []) (omega arith) (omega arith)
    encode-decoded (a ∷ b ∷ c ∷ s) =
        let q = a ∷ b ∷ c ∷ [] in
        let (d, whole) = encode-decoded s in
        (
          rw
              (
                laws.encode-group a b c s,
                decode_quanta-group q (base64.encode s) (omega arith) (omega arith),
                d,
              )
              refl,
          rw (laws.encode-group a b c s) (
              omega (
                arith,
                length-append (base64.encode q) (base64.encode s),
                laws.length-encode q (omega arith) (omega arith),
                whole,
              )),
        )

    -- With engines for base64 as in RFC 4648: if some data are encoded in chunks and what is sent comes
    -- in, cut into chunks in any other way, then exactly those data are decoded, without an error.
    pub decode_chunks-encode_chunks :
        (chunks texts : List Bytes)
        → concat texts ≡ encode_chunks base64 [] chunks
        → decode_chunks base64 [] texts ≡ ok (concat chunks)
    decode_chunks-encode_chunks chunks texts h =
        let sent : concat texts ≡ base64.encode (concat chunks) =
          h ∙ encode_chunks-concat base64 laws [] chunks in
        let (d, whole) = encode-decoded (concat chunks) in
        let tested : (length (base64.encode (concat chunks)) % 4 == 0) ≡ true =
          ground (arith, whole) in
        decode_chunks-at_once [] texts (omega arith)
        ∙ rw
            (
              sent,
              printed-same (base64.encode (concat chunks)) (laws.encode-printed (concat chunks)),
              d,
              tested,
            )
            refl
