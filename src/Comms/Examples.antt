-- ===== src/Comms/Examples.antt =====
-- A handler that answers with an error, and a plain encoding of responses by the length of their first field.
use windowframe.Prelude.{
  ℕ, zero, suc, ◌≡◌, refl, ap, true, Option, none, some, [], ◌∷◌, ◌++◌, length,
}
use windowframe.Errors.{Err, foreign}
use windowframe.Text.{Bytes}
use windowframe.Comms.{Response, Handler, send, respond, remote, send-respond}

abbrev pack : Response → Bytes
pack r = length r.bytes ∷ (r.bytes ++ r.error)

abbrev cut : ℕ → Bytes → Bytes × Bytes
cut zero s = ([], s)
cut (suc n) [] = ([], [])
cut (suc n) (c ∷ s) = let rest = cut n s in (c ∷ rest.0, rest.1)

abbrev unpack : Bytes → Option Response
unpack [] = none
unpack (n ∷ s) = some (record { bytes = (cut n s).0; error = (cut n s).1 })

cut-length : (xs ys : Bytes) → cut (length xs) (xs ++ ys) ≡ (xs, ys)
cut-length [] ys = refl
cut-length (x ∷ xs) ys = ap (λ p. (x ∷ p.0, p.1)) (cut-length xs ys)

unpack-pack : (r : Response) → true ≡ true → unpack (pack r) ≡ some r
unpack-pack r valid =
    ap (λ p. some (record { bytes = p.0; error = p.1 })) (cut-length r.bytes r.error)

-- Counts its calls, and fails.
abbrev failing : Handler ℕ
failing payload n = (suc n, (payload, some (foreign "no")))

abbrev text : Err → Bytes
text e = b'n' ∷ b'o' ∷ []

send-respond_example :
    send unpack (some (pack (respond text failing (7 ∷ []) 0).1))
    ≡ (7 ∷ [], some (remote (b'n' ∷ b'o' ∷ [])))
send-respond_example = send-respond text (λ s. true) pack unpack failing (7 ∷ []) 0 unpack-pack refl
