-- ===== src/Ocel/Spool/Laws.antt =====
-- What the files hold while the payload is spooled.
use ex4pm.Json.{os_error, Exception}
use ex4pm.Prelude.{
  Bool-cases, subst, ℕ, String, refl, sym, ap, ◌∙◌, ◌≡◌, ◌≢◌, ◌⊎◌, inl, inr, List, [], ◌++◌, Option,
  none, some, arith, ◌==◌, string_Eq, eq_iff, ok, err, Result, zero, suc, ◌∷◌,
}
use mathlib.Core.List.{append_assoc, append-nil}
use ex4pm.Ocel.Spool.{
  Disk, put, Phase, start, writing, replaced, Spooling, Step, create, write, replace, Reach, here,
  next, Directory, moved, atomic_spool, Fate, not_made, cut_off, not_replaced, complete,
  first_bytes, part_written, spool_by,
}

pub put_same :
    (name : String) (bytes : Option (List ℕ)) (disk : Disk) → put name bytes disk name ≡ bytes
put_same name bytes disk = rw ((eq_iff name name).1 refl)

pub put_other :
    (name other : String) (bytes : Option (List ℕ)) (disk : Disk)
    → other ≢ name
    → put name bytes disk other ≡ disk other
put_other name other bytes disk n = ground (arith, eq_iff other name, n)

module _ (temporary output : String) (payload : List ℕ) (first : Disk)
    (fresh : output ≢ temporary) where
  -- What the files are in each phase
  abbrev pub Holds : Phase → Disk → Type 0
  Holds start disk = disk output ≡ first output
  Holds (writing done left) disk =
      (disk output ≡ first output) × (disk temporary ≡ some done) × (payload ≡ done ++ left)
  Holds replaced disk = disk output ≡ some payload

  -- The phase's files, and every file beside the two is as it was.
  pub record Sound (s : Spooling) : Type 0 where
    pub phase : Holds s.phase s.disk
    pub others : (name : String) → name ≢ output → name ≢ temporary → s.disk name ≡ first name

  phase_of : (s : Spooling) (p : Phase) → s.phase ≡ p → Sound s → Holds p s.disk
  phase_of s p e v = subst (λ q. Holds q s.disk) e v.phase

  Step-Sound : {s t : Spooling} → Step temporary output payload s t → Sound s → Sound t
  Step-Sound {s} {t} (create e t_is) v =
      let same = phase_of s start e v in
      subst Sound (sym t_is) (record {
        phase =
            (put_other temporary output _ s.disk fresh ∙ same, put_same temporary _ s.disk, refl);
        others = λ name n m. put_other temporary name _ s.disk m ∙ v.others name n m;
      })
  Step-Sound {s} {t} (write done piece left e t_is) v =
      let (same, _, split) = phase_of s (writing done (piece ++ left)) e v in
      subst Sound (sym t_is) (record {
        phase = (
          put_other temporary output _ s.disk fresh ∙ same,
          put_same temporary _ s.disk,
          split ∙ sym (append_assoc done piece left),
        );
        others = λ name n m. put_other temporary name _ s.disk m ∙ v.others name n m;
      })
  Step-Sound {s} {t} (replace done e t_is) v =
      let (_, bytes, split) = phase_of s (writing done []) e v in
      subst Sound (sym t_is) (record {
        phase =
            put_other temporary output none (put output (s.disk temporary) s.disk) fresh
            ∙ put_same output _ s.disk
            ∙ bytes
            ∙ ap (λ x. some x) (sym (split ∙ append-nil done));
        others = λ name n m.
            put_other temporary name none (put output (s.disk temporary) s.disk) m
            ∙ put_other output name (s.disk temporary) s.disk n
            ∙ v.others name n m;
      })

  pub Reach-Sound : {s t : Spooling} → Sound s → Reach temporary output payload s t → Sound t
  Reach-Sound v here = v
  Reach-Sound v (next r st) = Step-Sound st (Reach-Sound v r)

  Holds-output :
      (p : Phase) (disk : Disk)
      → Holds p disk
      → (disk output ≡ first output) ⊎ (disk output ≡ some payload)
  Holds-output start disk h = inl h
  Holds-output (writing done left) disk h = inl h.0
  Holds-output replaced disk h = inr h

-- Wherever spooling is stopped, provided that the temporary file has another name than the output,
-- the output holds what it held before or the whole payload, and a file that is neither the output
-- nor the temporary one is as it was.
pub Reach-output :
    (temporary output : String) (payload : List ℕ) (disk : Disk) (s : Spooling) (name : String)
    → output ≢ temporary
    → Reach temporary output payload (record { phase = start; disk = disk }) s
    → ((s.disk output ≡ disk output) ⊎ (s.disk output ≡ some payload))
      × ((name ≡ output) ⊎ ((name ≡ temporary) ⊎ (s.disk name ≡ disk name)))
Reach-output temporary output payload disk s name fresh r =
    let v =
      Reach-Sound temporary output payload disk fresh
        (record { phase = refl; others = λ name n m. refl }) r in
    (
      Holds-output temporary output payload disk fresh s.phase s.disk v.phase,
      ground (
        arith,
        eq_iff name output,
        eq_iff name temporary,
        Bool-cases (name == output),
        Bool-cases (name == temporary),
        v.others name,
      ),
    )

-- What is left of the payload
abbrev last_bytes : ℕ → List ℕ → List ℕ
last_bytes zero payload = payload
last_bytes (suc n) [] = []
last_bytes (suc n) (b ∷ payload) = last_bytes n payload

first-last_bytes :
    (n : ℕ) (payload : List ℕ) → payload ≡ first_bytes n payload ++ last_bytes n payload
first-last_bytes zero payload = refl
first-last_bytes (suc n) [] = refl
first-last_bytes (suc n) (b ∷ payload) = ap (λ x. b ∷ x) (first-last_bytes n payload)

abbrev pub begins : Disk → Spooling
begins disk = record { phase = start; disk = disk }

module _ (temporary output : String) (payload : List ℕ) (disk : Disk) where
  -- The file is made, and some bytes are written at once.
  part_written-Reach :
      (bytes left : List ℕ)
      → payload ≡ bytes ++ left
      → Reach temporary output payload
          (begins disk)
          (record { phase = writing bytes left; disk = part_written temporary bytes disk })
  part_written-Reach bytes left e =
      next (next here (create refl refl)) (write [] bytes left (ap (λ x. writing [] x) e) refl)

  -- It then takes the output's name.
  moved-Reach :
      Reach temporary output payload
        (begins disk)
        (record { phase = replaced; disk = moved temporary output payload disk })
  moved-Reach =
      next (part_written-Reach payload [] (sym (append-nil payload))) (replace payload refl refl)

-- An end that spooling comes to by its steps: the output named and full, or an exception and the output
-- as it was
pub record Spooled (temporary output : String) (payload : List ℕ) (disk : Disk)
    (r : Disk × Result Exception String) : Type 0 where
  pub phase : Phase
  pub steps : Reach temporary output payload (begins disk) (record { phase = phase; disk = r.0 })
  pub result :
      ((r.1 ≡ ok output) × (phase ≡ replaced) × (r.0 output ≡ some payload))
      ⊎ (((e : Exception) × (r.1 ≡ err e)) × (r.0 output ≡ disk output))

module _ (temporary output : String) (payload : List ℕ) (disk : Disk)
    (fresh : output ≢ temporary) where
  begins-Sound : Sound temporary output payload disk fresh (begins disk)
  begins-Sound = record { phase = refl; others = λ name n m. refl }

  -- A stop while the bytes are written
  stopped-Spooled :
      (bytes left : List ℕ)
      → payload ≡ bytes ++ left
      → Spooled temporary output payload disk (part_written temporary bytes disk, err os_error)
  stopped-Spooled bytes left e =
      let steps = part_written-Reach temporary output payload disk bytes left e in
      record {
        phase = writing bytes left;
        steps = steps;
        result = inr (
          (os_error, refl),
          (Reach-Sound temporary output payload disk fresh begins-Sound steps).phase.0,
        );
      }

  pub spool_by-Spooled :
      (f : Fate) → Spooled temporary output payload disk (spool_by f temporary output payload disk)
  spool_by-Spooled not_made = record {
    phase = start;
    steps = here;
    result = inr ((os_error, refl), refl);
  }
  spool_by-Spooled (cut_off n) =
      stopped-Spooled (first_bytes n payload) (last_bytes n payload) (first-last_bytes n payload)
  spool_by-Spooled not_replaced = stopped-Spooled payload [] (sym (append-nil payload))
  spool_by-Spooled complete =
      let steps = moved-Reach temporary output payload disk in
      record {
        phase = replaced;
        steps = steps;
        result = inl (
          refl,
          refl,
          (Reach-Sound temporary output payload disk fresh begins-Sound steps).phase,
        );
      }

-- Whatever the file system does, provided that the temporary file has another name than the output,
-- the function comes to its end by these steps: either it returns the output's name, all steps are
-- taken and the output holds the whole payload, or it raises and the output is as it was.
pub atomic_spool-Spooled :
    (d : Directory) (payload : List ℕ) (raw : String)
    → d.resolve raw ≢ d.temporary_of (d.resolve raw)
    → Spooled
        (d.temporary_of (d.resolve raw))
        (d.resolve raw)
        payload
        d.disk
        (atomic_spool d payload raw)
unfolding atomic_spool
atomic_spool-Spooled d payload raw fresh =
    spool_by-Spooled (d.temporary_of (d.resolve raw)) (d.resolve raw) payload d.disk fresh
      (d.fate (d.resolve raw) payload)
