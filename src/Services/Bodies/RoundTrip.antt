-- ===== src/Services/Bodies/RoundTrip.antt =====
-- About the texts of response bodies (`json.dumps` and `json.loads` in
-- backend/src/hyc_api/services/p3.py).
use mathlib.Core.List.{append_assoc}
use hanyangchem_qc_v.Base.{
  ℕ, zero, suc, ◌+◌, ◌*◌, ◌/◌, ◌%◌, ◌<◌, ◌≡◌, refl, sym, ap, ◌∙◌, inl, inr, true, false, ◌&&◌, some,
  [], ◌∷◌, ◌++◌, All, arith, ltb, leb, ◌==◌, Bool-cases, ==_iff, Result-cases, &&-true, ok, err,
}
use hanyangchem_qc_v.Snapshots.{Text, Canonical}
use hanyangchem_qc_v.Snapshots.Dump.{hex_digit}
use hanyangchem_qc_v.Snapshots.Load.{
  plain, hex_digits, hex_value, load_string, turn, unescape, take,
}
use hanyangchem_qc_v.Services.Bodies.{escape_ascii, escape_body, unicode_escape}

-- A character below the surrogates.
abbrev pub IsPlain : ℕ → Type 0
IsPlain c = c < 0xd800

hex_value-hex_digit : (d : ℕ) → d < 16 → hex_value (hex_digit d) ≡ some d
hex_value-hex_digit d h = ground arith

abbrev push : ℕ → Canonical (Text × Text) → Canonical (Text × Text)
push c (ok (t, rest)) = ok (c ∷ t, rest)
push c (err e) = err e

digits_of :
    (c : ℕ)
    → c < 0x10000
    → ((c / 4096) < 16)
      × ((c / 256 % 16) < 16)
      × ((c / 16 % 16) < 16)
      × ((c % 16) < 16)
      × ((((c / 4096) * 16 + c / 256 % 16) * 16 + c / 16 % 16) * 16 + c % 16 ≡ c)
digits_of c h = (omega arith, omega arith, omega arith, omega arith, omega arith)

hex_turn :
    (left acc d : ℕ) (rest : Text)
    → d < 16
    → load_string (hex_digits (suc left) acc) (hex_digit d ∷ rest)
      ≡ load_string (hex_digits left (acc * 16 + d)) rest
unfolding load_string
hex_turn left acc d rest h = rw (hex_value-hex_digit d h, load_string) refl

last_hex_turn :
    (acc d : ℕ) (rest : Text)
    → d < 16
    → load_string (hex_digits zero acc) (hex_digit d ∷ rest)
      ≡ push (acc * 16 + d) (load_string plain rest)
unfolding load_string
last_hex_turn acc d rest h = elim (Result-cases (load_string plain rest)) [
  | inl (a, e) ↦ rw (hex_value-hex_digit d h, load_string, e) refl
  | inr (a, e) ↦ rw (hex_value-hex_digit d h, load_string, e) refl
]

load_string-hex :
    (a b c d : ℕ) (rest : Text)
    → a < 16
    → b < 16
    → c < 16
    → d < 16
    → load_string plain
        (b'\\' ∷ b'u' ∷ hex_digit a ∷ hex_digit b ∷ hex_digit c ∷ hex_digit d ∷ rest)
      ≡ push (((a * 16 + b) * 16 + c) * 16 + d) (load_string plain rest)
unfolding load_string
load_string-hex a b c d rest ha hb hc hd =
    hex_turn 2 0 a (hex_digit b ∷ hex_digit c ∷ hex_digit d ∷ rest) ha
    ∙ hex_turn 1 (0 * 16 + a) b (hex_digit c ∷ hex_digit d ∷ rest) hb
    ∙ hex_turn 0 ((0 * 16 + a) * 16 + b) c (hex_digit d ∷ rest) hc
    ∙ last_hex_turn (((0 * 16 + a) * 16 + b) * 16 + c) d rest hd
    ∙ ap (λ k. push k (load_string plain rest)) (omega arith)

escape_turn :
    (k d : ℕ) (rest : Text)
    → unescape d ≡ take k
    → load_string plain (b'\\' ∷ d ∷ rest) ≡ push k (load_string plain rest)
unfolding load_string
escape_turn k d rest h = elim (Result-cases (load_string plain rest)) [
  | inl (a, e) ↦ rw (h, load_string, e) refl
  | inr (a, e) ↦ rw (h, load_string, e) refl
]

plain_turn :
    (c : ℕ) (rest : Text)
    → turn plain c ≡ take c
    → load_string plain (c ∷ rest) ≡ push c (load_string plain rest)
unfolding load_string
plain_turn c rest h = elim (Result-cases (load_string plain rest)) [
  | inl (a, e) ↦ rw (h, load_string, e) refl
  | inr (a, e) ↦ rw (h, load_string, e) refl
]

-- An escape that stands for `k` is read as `c` where the code tests for `k`.
escaped :
    (c k d : ℕ) (rest : Text)
    → (c == k) ≡ true
    → unescape d ≡ take k
    → load_string plain (b'\\' ∷ d ∷ rest) ≡ push c (load_string plain rest)
escaped c k d rest e h =
    escape_turn k d rest h ∙ ap (λ n. push n (load_string plain rest)) (sym ((==_iff c k).0 e))

printable :
    (c : ℕ) → (c == b'"') ≡ false → (c == b'\\') ≡ false → leb 32 c ≡ true → turn plain c ≡ take c
printable c quote slash low = ground arith

unicode_turn :
    (c : ℕ) (rest : Text)
    → IsPlain c
    → load_string plain (unicode_escape c ++ rest) ≡ push c (load_string plain rest)
unicode_turn c rest h =
    let (h3, h2, h1, h0, whole) = digits_of c (omega arith) in
    load_string-hex _ _ _ _ rest h3 h2 h1 h0 ∙ ap (λ n. push n (load_string plain rest)) whole

-- One character, however it is escaped, is read back.
load_string-escape_ascii :
    (c : ℕ) (rest : Text)
    → IsPlain c
    → load_string plain (escape_ascii c ++ rest) ≡ push c (load_string plain rest)
unfolding escape_ascii
load_string-escape_ascii c rest h = elim (Bool-cases (c == b'"')) [
  | inl e ↦ rw e (escaped c b'"' b'"' rest e refl)
  | inr n1 ↦ elim (Bool-cases (c == b'\\')) [
    | inl e ↦ rw (n1, e) (escaped c b'\\' b'\\' rest e refl)
    | inr n2 ↦ elim (Bool-cases (c == 10)) [
      | inl e ↦ rw (n1, n2, e) (escaped c 10 b'n' rest e refl)
      | inr n3 ↦ elim (Bool-cases (c == 13)) [
        | inl e ↦ rw (n1, n2, n3, e) (escaped c 13 b'r' rest e refl)
        | inr n4 ↦ elim (Bool-cases (c == 9)) [
          | inl e ↦ rw (n1, n2, n3, n4, e) (escaped c 9 b't' rest e refl)
          | inr n5 ↦ elim (Bool-cases (c == 12)) [
            | inl e ↦ rw (n1, n2, n3, n4, n5, e) (escaped c 12 b'f' rest e refl)
            | inr n6 ↦ elim (Bool-cases (c == 8)) [
              | inl e ↦ rw (n1, n2, n3, n4, n5, n6, e) (escaped c 8 b'b' rest e refl)
              | inr n7 ↦ elim (Bool-cases (leb 32 c && leb c 126)) [
                | inl e ↦
                    rw (n1, n2, n3, n4, n5, n6, n7, e)
                      (plain_turn c rest (printable c n1 n2 (&&-true (leb 32 c) (leb c 126) e).0))
                | inr n8 ↦
                    let small : ltb c 0x10000 ≡ true = ground arith in
                    rw (n1, n2, n3, n4, n5, n6, n7, n8, small) (unicode_turn c rest h)
              ]
            ]
          ]
        ]
      ]
    ]
  ]
]

-- A string is read back, and what follows it is left.
pub load_string-body :
    (t rest : Text)
    → All IsPlain t
    → load_string plain (escape_body t ++ b'"' ∷ rest) ≡ ok (t, rest)
unfolding escape_body load_string
load_string-body [] rest h = refl
load_string-body (c ∷ cs) rest h =
    ap (load_string plain) (append_assoc (escape_ascii c) (escape_body cs) (b'"' ∷ rest))
    ∙ load_string-escape_ascii c (escape_body cs ++ b'"' ∷ rest) h.0
    ∙ ap (push c) (load_string-body cs rest h.1)
