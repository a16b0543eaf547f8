-- ===== src/Users/Fixtures.antt =====
-- Libraries for tests: texts with their lengths before them, and records as the texts of their
-- fields, in place of JSON (capsules/capsule-users).
use unicity_aos.Base.{
  ℕ, zero, suc, ◌≡◌, refl, ap, Option, none, some, List, [], ◌∷◌, ◌++◌, codes, length,
}
use unicity_aos.Base.Text.{Text}
use unicity_aos.Base.Result.{Result, ok, err}
use unicity_aos.Users.Types.{
  Uuid, AstridUser, FrontendLink, ContextIdentity, Codec, IsLawful, Libs, AreLawful,
}

-- A value before a text, and what is read from the front of a text.
pub record Format (A : Type 0) : Type 0 where
  pub write : A → Text → Text
  pub read : Text → Option (A × Text)
  pub reads_back : (a : A) (rest : Text) → read (write a rest) ≡ some (a, rest)

-- The next `n` numbers.
abbrev pub pull : ℕ → Text → Option (Text × Text)
pull zero s = some ([], s)
pull (suc n) [] = none
pull (suc n) (c ∷ s) = elim (pull n s) [ none ↦ none | some p ↦ some (c ∷ p.0, p.1) ]

pub pull-append : (s rest : Text) → pull (length s) (s ++ rest) ≡ some (s, rest)
pull-append [] rest = refl
pull-append (c ∷ s) rest = rw (pull-append s rest) refl

abbrev pub text_read : Text → Option (Text × Text)
text_read [] = none
text_read (n ∷ s) = pull n s

abbrev pub text_format : Format Text
text_format = record {
  write = λ s rest. length s ∷ (s ++ rest);
  read = text_read;
  reads_back = pull-append;
}

abbrev pub number_read : Text → Option (ℕ × Text)
number_read [] = none
number_read (n ∷ s) = some (n, s)

abbrev pub number_format : Format ℕ
number_format = record {
  write = λ n rest. n ∷ rest;
  read = number_read;
  reads_back = λ n rest. refl;
}

module _ {A : Type 0} (format : Format A) where
  abbrev pub option_write : Option A → Text → Text
  option_write none rest = 0 ∷ rest
  option_write (some a) rest = 1 ∷ format.write a rest

  abbrev pub tagged : Option (A × Text) → Option (Option A × Text)
  tagged none = none
  tagged (some p) = some (some p.0, p.1)

  abbrev pub option_read : Text → Option (Option A × Text)
  option_read [] = none
  option_read (zero ∷ s) = some (none, s)
  option_read (suc n ∷ s) = tagged (format.read s)

  pub option_reads_back :
      (o : Option A) (rest : Text) → option_read (option_write o rest) ≡ some (o, rest)
  option_reads_back none rest = refl
  option_reads_back (some a) rest = ap tagged (format.reads_back a rest)

  abbrev pub option_format : Format (Option A)
  option_format = record {
    write = option_write;
    read = option_read;
    reads_back = option_reads_back;
  }

module _ {A B : Type 0} (first : Format A) (second : Format B) where
  abbrev pub with_second : A → Option (B × Text) → Option ((A × B) × Text)
  with_second a none = none
  with_second a (some q) = some ((a, q.0), q.1)

  abbrev pub read_second : Option (A × Text) → Option ((A × B) × Text)
  read_second none = none
  read_second (some p) = with_second p.0 (second.read p.1)

  pub pair_reads_back :
      (p : A × B) (rest : Text)
      → read_second (first.read (first.write p.0 (second.write p.1 rest))) ≡ some (p, rest)
  pair_reads_back p rest =
      rw (first.reads_back p.0 (second.write p.1 rest), second.reads_back p.1 rest) refl

  abbrev pub pair_format : Format (A × B)
  pair_format = record {
    write = λ p rest. first.write p.0 (second.write p.1 rest);
    read = λ s. read_second (first.read s);
    reads_back = pair_reads_back;
  }

module _ {A B : Type 0} (format : Format A) (to : B → A) (of : A → B) where
  abbrev pub finished : Option (A × Text) → Result Text B
  finished none = err (codes "invalid")
  finished (some p) = ok (of p.0)

  abbrev pub from_slice : Text → Result Text B
  from_slice [] = err (codes "EOF")
  from_slice (c ∷ s) = finished (format.read s)

  abbrev pub codec_of : Codec B
  codec_of = record { to_vec = λ b. ok (b'J' ∷ format.write (to b) []); from_slice = from_slice }

  written-round_trip :
      ((b : B) → of (to b) ≡ b)
      → (b : B) (s : Text) → codec_of.to_vec b ≡ ok s
      → codec_of.from_slice s ≡ ok b
  written-round_trip same b [] e = absurd (cc e)
  written-round_trip same b (c ∷ s) e =
      let body : format.write (to b) [] ≡ s = cc e in
      rw (← body, format.reads_back (to b) [], same b) refl

  codec_of-IsLawful : ((b : B) → of (to b) ≡ b) → IsLawful codec_of
  codec_of-IsLawful same = record {
    not_empty = λ b e n. cc (e, n);
    round_trip = λ b {b = s} e. written-round_trip same b s e;
  }

abbrev pub user_format : Format (Uuid × (Option (List ℕ) × (Option Text × Text)))
user_format =
    pair_format number_format (
      pair_format (option_format text_format) (pair_format (option_format text_format) text_format))

abbrev pub user_codec : Codec AstridUser
user_codec =
    codec_of user_format (λ u. (u.id, (u.public_key, (u.display_name, u.created_at))))
      (λ t. record { id = t.0; public_key = t.1.0; display_name = t.1.1.0; created_at = t.1.1.1 })

abbrev pub link_format :
    Format (Text × (Option Text × (Text × (Uuid × (Text × (Text × Option Text))))))
link_format = pair_format text_format (
    pair_format (option_format text_format) (
      pair_format text_format (
        pair_format number_format
          (pair_format text_format (pair_format text_format (option_format text_format))))))

abbrev pub link_codec : Codec FrontendLink
link_codec =
    codec_of link_format
      (λ l. (
        l.platform,
        (
          l.platform_instance,
          (l.platform_user_id, (l.astrid_user_id, (l.linked_at, (l.method, l.display_name)))),
        ),
      ))
      (λ t. record {
        platform = t.0;
        platform_instance = t.1.0;
        platform_user_id = t.1.1.0;
        astrid_user_id = t.1.1.1.0;
        linked_at = t.1.1.1.1.0;
        method = t.1.1.1.1.1.0;
        display_name = t.1.1.1.1.1.1;
      })

abbrev pub context_format : Format (Text × (Option Text × (Text × (Text × (Text × Text)))))
context_format = pair_format text_format (
    pair_format (option_format text_format)
      (pair_format text_format (pair_format text_format (pair_format text_format text_format))))

abbrev pub context_codec : Codec ContextIdentity
context_codec =
    codec_of context_format
      (λ c. (
        c.platform,
        (c.platform_instance, (c.platform_user_id, (c.context_id, (c.display_name, c.updated_at)))),
      ))
      (λ t. record {
        platform = t.0;
        platform_instance = t.1.0;
        platform_user_id = t.1.1.0;
        context_id = t.1.1.1.0;
        display_name = t.1.1.1.1.0;
        updated_at = t.1.1.1.1.1;
      })

abbrev pub parse_one : Text → Result Text Uuid
parse_one (n ∷ []) = ok n
parse_one _ = err (codes "invalid length")

abbrev pub libs : Libs
libs = record {
  uuid_text = λ n. n ∷ [];
  parse_str = parse_one;
  user_json = user_codec;
  link_json = link_codec;
  context_json = context_codec;
}

pub libs-AreLawful : AreLawful libs
libs-AreLawful = record {
  uuid_round_trip = λ id. refl;
  user_lawful = codec_of-IsLawful user_format _ _ (λ b. refl);
  link_lawful = codec_of-IsLawful link_format _ _ (λ b. refl);
  context_lawful = codec_of-IsLawful context_format _ _ (λ b. refl);
}
