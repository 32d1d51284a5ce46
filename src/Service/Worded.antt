-- ===== src/Service/Worded.antt =====
-- What the user is told when a request to the web service fails, with the tables of spa/src/i18n.
use esphome_gplug.Base.{
  ℕ, ◌≡◌, ◌≢◌, refl, Bool, true, false, not, ◌&&◌, Bool-cases, Option, none, some, List, [], ◌∷◌,
  ◌++◌, inl, inr, arith, ap, sym, All, append_assoc, append-nil,
}
use mathlib.Core.Path.{subst, ◌∙◌}
use esphome_gplug.Text.Utf8.{Text, codes, bytes_eq}
use esphome_gplug.Text.Decimal.{digits}
use esphome_gplug.Language.{Lang, de, fr, it, en, Table, Entry, text, function, lookup, string_of}
use esphome_gplug.Language.German.{german}
use esphome_gplug.Language.Real.{table_of}
use esphome_gplug.Language.Spell.{Shows}
use esphome_gplug.Service.{
  Payload, Response, Fetched, aborted, unreachable, answered, failure, is_ok, device_errors, Ending,
  loaded, xhr_error, timed_out, Promise, resolved, rejected, check_firmware_auth, upload_firmware,
  known_in, known, as_text, parsed, detail, says_key, prefixed, unknown_message, message, refused,
  req,
}

-- Whether an entry is a text that is not empty.
unfoldable is_sentence : Option Entry → Bool
is_sentence (some (text [])) = false
is_sentence (some (text (c ∷ s))) = true
is_sentence _ = false

unfoldable all_sentences : Table → List Text → Bool
unfolding is_sentence lookup
all_sentences t [] = true
all_sentences t (key ∷ rest) = is_sentence (lookup key t) && all_sentences t rest

unfoldable targets : List (Text × Text) → List Text
targets [] = []
targets ((token, key) ∷ rest) = key ∷ targets rest

-- The keys of all messages.
abbrev message_keys : List Text
message_keys =
    codes "errTimeout"
    ∷ codes "errNetwork"
    ∷ codes "errServer"
    ∷ codes "fwConnLost"
    ∷ targets device_errors

all_worded : (l : Lang) → all_sentences (table_of l) message_keys ≡ true
unfolding all_sentences is_sentence lookup bytes_eq targets table_of
all_worded de = refl
all_worded fr = refl
all_worded it = refl
all_worded en = refl

-- That a table has a text of its own for a key, and what `S` then gives.
abbrev Worded : Table → Text → Type 0
Worded t key =
    (m : Text) × (lookup key t ≡ some (text m)) × (says_key german t key ≡ some m) × (m ≢ [])

own-says_key :
    (t : Table) (key m : Text) → lookup key t ≡ some (text m) → says_key german t key ≡ some m
unfolding says_key string_of as_text
own-says_key t key m e = rw (e, string_of) refl

entry-Worded :
    (t : Table) (key : Text) (o : Option Entry)
    → lookup key t ≡ o
    → is_sentence o ≡ true
    → Worded t key
unfolding is_sentence
entry-Worded t key none e g = absurd (ground arith)
entry-Worded t key (some (function n ps)) e g = absurd (ground arith)
entry-Worded t key (some (text [])) e g = absurd (ground arith)
entry-Worded t key (some (text (c ∷ s))) e g =
    (c ∷ s, e, own-says_key t key (c ∷ s) e, λ h. absurd (ground arith))

both : (a b : Bool) → (a && b) ≡ true → (a ≡ true) × (b ≡ true)
both true b h = (refl, h)
both false b h = absurd (ground arith)

sentences-Worded :
    (t : Table) (keys : List Text) → all_sentences t keys ≡ true → All (Worded t) keys
unfolding all_sentences
sentences-Worded t [] h = tt
sentences-Worded t (key ∷ rest) h =
    let (here, there) = both (is_sentence (lookup key t)) (all_sentences t rest) h in
    (entry-Worded t key (lookup key t) refl here, sentences-Worded t rest there)

-- The key of a known token has a text, in a table that has one for each of the keys.
known_in-Worded :
    (l : List (Text × Text)) (t : Table) (d key : Text)
    → All (Worded t) (targets l)
    → known_in l d ≡ some key
    → Worded t key
unfolding known_in targets
known_in-Worded [] t d key h k = absurd (ground arith)
known_in-Worded ((token, name) ∷ rest) t d key (here, there) k =
    elim (Bool-cases (bytes_eq d token)) [
      | inl hit ↦ subst (λ (n : Text). Worded t n) (text_inj (rw hit at k)) here
      | inr miss ↦ known_in-Worded rest t d key there (rw miss at k)
    ]
  where
    text_inj : {x y : Text} → some x ≡ some y → x ≡ y
    text_inj e = cc

-- What a message says of an answer with a status, a detail and the key that there is for it: the
-- language's own sentence for a known token, or else the token, or else the status.
abbrev pub Tells : Table → Option Text → Text → ℕ → Text → Type 0
Tells t (some key) d code m = lookup key t ≡ some (text m)
Tells t none [] code m = Shows (digits code) m
Tells t none (c ∷ s) code m = Shows (c ∷ s) m

abbrev Told : Table → Option Text → Text → ℕ → Type 0
Told t o d code = (m : Text) × (message german t o d code ≡ some m) × (m ≢ []) × Tells t o d code m

append_nonempty : (s tail : Text) → s ≢ [] → s ++ tail ≢ []
append_nonempty [] tail h e = h refl
append_nonempty (c ∷ s) tail h e = absurd (ground arith)

prefixed-some :
    (t : Table) (s tail : Text)
    → says_key german t (codes "errServer") ≡ some s
    → prefixed german t tail ≡ some (s ++ tail)
unfolding prefixed
prefixed-some t s tail e = rw e refl

message-Told :
    (t : Table) (o : Option Text) (d : Text) (code : ℕ)
    → Worded t (codes "errServer")
    → ((key : Text) → o ≡ some key → Worded t key)
    → Told t o d code
unfolding message unknown_message
message-Told t (some key) d code server known_key =
    let (m, own, says, full) = known_key key refl in (m, says, full, own)
message-Told t none [] code (s, own, says, full) known_key =
    let tail = codes " (HTTP " ++ digits code ++ codes ")" in
    (
      s ++ tail,
      prefixed-some t s tail says,
      append_nonempty s tail full,
      (
        s ++ codes " (HTTP ",
        codes ")",
        sym (append_assoc s (codes " (HTTP ") (digits code ++ codes ")")),
      ),
    )
message-Told t none (c ∷ d) code (s, own, says, full) known_key =
    let tail = codes ": " ++ (c ∷ d) in
    (
      s ++ tail,
      prefixed-some t s tail says,
      append_nonempty s tail full,
      (
        s ++ codes ": ",
        [],
        sym (append_assoc s (codes ": ") (c ∷ d))
            ∙ ap (λ (l : Text). (s ++ codes ": ") ++ l) (sym (append-nil (c ∷ d))),
      ),
    )

-- Whether a request fails, and the body that goes with the error.
abbrev pub fails : Fetched → Bool
fails (answered r) = not (is_ok r.code)
fails _ = true

abbrev pub body_of : Fetched → Option Payload
body_of (answered r) = parsed r
body_of _ = none

-- What a message says of a failure.
abbrev pub Explains : Table → Fetched → Text → Type 0
Explains t aborted m = lookup (codes "errTimeout") t ≡ some (text m)
Explains t unreachable m = lookup (codes "errNetwork") t ≡ some (text m)
Explains t (answered r) m = Tells t (known (detail (parsed r))) (detail (parsed r)) r.code m

refused_answer :
    (t : Table) (r : Response)
    → is_ok r.code ≡ false
    → req german t (answered r)
      ≡ failure (message german t (known (detail (parsed r))) (detail (parsed r)) r.code) (parsed r)
unfolding req refused
refused_answer t r h = rw h refl

unset : (b : Bool) → not b ≡ true → b ≡ false
unset true h = absurd (ground arith)
unset false h = refl

keys-Worded : (l : Lang) → All (Worded (table_of l)) message_keys
keys-Worded l = sentences-Worded (table_of l) message_keys (all_worded l)

refused-Told :
    (l : Lang) (r : Response)
    → Told (table_of l) (known (detail (parsed r))) (detail (parsed r)) r.code
unfolding known
refused-Told l r =
    let d = detail (parsed r) in
    message-Told (table_of l) (known d) d r.code ((keys-Worded l).1.1.0)
      (λ key e. known_in-Worded device_errors (table_of l) d key ((keys-Worded l).1.1.1.1) e)

-- A request that times out, does not reach the device or is answered with a status other than 2xx ends,
-- in each of the four languages, in an error with a message that is not empty, and with the answer's
-- JSON body. The message is the language's own sentence for a timeout, for a network error and for a
-- known token of the device; for an unknown token it shows the token, and without one the status.
pub req-Explains :
    (l : Lang) (f : Fetched)
    → fails f ≡ true
    → (m : Text) × (req german (table_of l) f ≡ failure (some m) (body_of f))
      × (m ≢ [])
      × Explains (table_of l) f m
unfolding req targets
req-Explains l aborted h =
    let (m, own, says, full) = (keys-Worded l).0 in
    (m, ap (λ (o : Option Text). failure o none) says, full, own)
req-Explains l unreachable h =
    let (m, own, says, full) = (keys-Worded l).1.0 in
    (m, ap (λ (o : Option Text). failure o none) says, full, own)
req-Explains l (answered r) h =
    let (m, says, full, tells) = refused-Told l r in
    (
      m,
      refused_answer (table_of l) r (unset (is_ok r.code) h)
          ∙ ap (λ (o : Option Text). failure o (parsed r)) says,
      full,
      tells,
    )

-- A promise that is kept, or rejected with a message that is not empty.
abbrev pub Settles : {A : Type 0} → Promise A → Type 0
Settles (resolved a) = Unit {0}
Settles (rejected o) = (m : Text) × (o ≡ some m) × (m ≢ [])

says-Settles :
    (A : Type 0) (t : Table) (key : Text)
    → Worded t key
    → Settles {A = A} (rejected (says_key german t key))
says-Settles A t key (m, own, says, full) = (m, says, full)

-- However the check of the password and the upload of an image end, the user is told of a failure in
-- words of the language.
pub firmware-Settles :
    (l : Lang) (e : Ending)
    → Settles (check_firmware_auth german (table_of l) e)
      × Settles (upload_firmware german (table_of l) e)
unfolding check_firmware_auth upload_firmware
firmware-Settles l (loaded code raw) = (tt, tt)
firmware-Settles l xhr_error =
    let words = keys-Worded l in
    (
      says-Settles Bool (table_of l) (codes "errNetwork") (words.1.0),
      says-Settles (ℕ × Text) (table_of l) (codes "fwConnLost") (words.1.1.1.0),
    )
firmware-Settles l timed_out =
    let timeout = (keys-Worded l).0 in
    (
      says-Settles Bool (table_of l) (codes "errTimeout") timeout,
      says-Settles (ℕ × Text) (table_of l) (codes "errTimeout") timeout,
    )
