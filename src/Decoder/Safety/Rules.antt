-- ===== src/Decoder/Safety/Rules.antt =====
-- The rules of `Total`: one for each way to build an action, and for the actions on the registers.
use libdvdnav.Prelude.{
  ℕ, ◌+◌, ◌^◌, ◌<◌, ◌≡◌, refl, Bool, true, false, ◌&&◌, ltb, leb, List, length, get_elem?,
  length-set, All, All-get, All-set, get_elem?_of_lt, field, u16, arith,
}
use libdvdnav.Decoder.State.{
  LinkCmd, Registers, Machine, Result, M, ◌>>=◌, when◌then◌else◌, pure, element, get_registers,
  put_registers, gettimeofday, rand, set_sprm,
}
use libdvdnav.Decoder.Getbits.{vm_getbits}
use libdvdnav.Decoder.Getbits.Field.{vm_getbits_lem}
use libdvdnav.Decoder.Links.{return_command, return_data1, return_data2, return_data3}
use libdvdnav.Decoder.Safety.{IsSound, During, Returns, returns, Total}

abbrev pub Any : {A : Type 0} → A → Type 0
Any _ = Unit

module _ {A B : Type 0} {P : A → Machine → Type 0} {Q : B → Machine → Type 0} where
  after :
      {r : Result A} (m : M A) (f : A → M B) (s : Machine)
      → r ≡ m s
      → Returns P r
      → ((a : A) (s' : Machine) → P a s' → Returns Q (f a s'))
      → Returns Q ((m >>= f) s)
  unfolding ◌>>=◌
  after m f s e (returns {a = a} {s = s'} h) k = rw (← e) (k a s' h)

  -- A step from states, where the next action depends on the state that the first one leaves.
  pub Returns-bind :
      (m : M A) (f : A → M B) (s : Machine)
      → Returns P (m s)
      → ((a : A) (s' : Machine) → P a s' → Returns Q (f a s'))
      → Returns Q ((m >>= f) s)
  Returns-bind m f s h k = after m f s refl h k

module _ (w : ℕ) where
  pub bind :
      {A B : Type 0} {Q : A → Type 0} {R : B → Type 0} {m : M A} {f : A → M B}
      → Total w Q m
      → ((a : A) → Q a → Total w R (f a))
      → Total w R (m >>= f)
  bind {m = m} {f = f} t k = record {
    run = λ s d. Returns-bind m f s (t.run s d) (λ a s' h. (k a h.0).run s' h.1);
  }

  pub return : {A : Type 0} {Q : A → Type 0} (a : A) → Q a → Total w Q (pure a)
  unfolding ◌>>=◌
  return a q = record { run = λ s d. returns (q, d) }

  pub branch :
      {A : Type 0} {Q : A → Type 0} {b : Bool} {m n : M A}
      → (b ≡ true → Total w Q m)
      → (b ≡ false → Total w Q n)
      → Total w Q (when b then m else n)
  unfolding ◌>>=◌
  branch {b = true} f g = f refl
  branch {b = false} f g = g refl

  pub weaken :
      {A : Type 0} {Q R : A → Type 0} {m : M A} → ((a : A) → Q a → R a) → Total w Q m → Total w R m
  weaken {Q} {R} {m} k t = record { run = λ s d. go (m s) (t.run s d) }
    where
      go :
          (r : Result _)
          → Returns (λ a s'. Q a × During w s') r
          → Returns (λ a s'. R a × During w s') r
      go r (returns {a = a} h) = returns (k a h.0, h.1)

  pub at :
      {A : Type 0} (P : A → Type 0) (xs : List A) (i : ℕ)
      → All P xs
      → i < length xs
      → Total w P (element (get_elem? xs i))
  unfolding ◌>>=◌
  at P xs i h l =
      let (a, e) = get_elem?_of_lt xs i l in
      rw e (record { run = λ s d. returns (All-get P xs i a h e, d) })

  pub registers : Total w IsSound get_registers
  unfolding ◌>>=◌
  registers = record { run = λ s d. returns (d.sound, d) }

  pub put : {r : Registers} → IsSound r → Total w Any (put_registers r)
  unfolding ◌>>=◌
  put h = record { run = λ s d. returns (tt, record { word = d.word; sound = h; fits = d.fits }) }

  pub clock : Total w Any gettimeofday
  unfolding ◌>>=◌
  clock = record {
    run = λ s d. returns (tt, record { word = d.word; sound = d.sound; fits = d.fits });
  }

  pub random : Total w Any rand
  unfolding ◌>>=◌
  random = record {
    run = λ s d. returns (tt, record { word = d.word; sound = d.sound; fits = d.fits });
  }

  abbrev pub in_range : ℕ → ℕ → Bool
  in_range start count = ltb start 64 && (ltb 0 count && (leb count 32 && leb count (start + 1)))

  -- `vm_getbits` does not abort, and returns the field of the instruction.
  pub bits :
      (start count : ℕ)
      → in_range start count ≡ true
      → Total w (λ v. v ≡ field w start count) (vm_getbits start count)
  bits start count h = record {
    run = λ s d.
        rw
          (vm_getbits_lem start count s (ground arith) (ground arith) (ground arith) (ground arith))
          (returns (rw d.word refl, record { word = d.word; sound = d.sound; fits = d.fits }));
  }

  pub link_command : (c : LinkCmd) → Total w Any (return_command c)
  unfolding return_command
  link_command c = record {
    run = λ s d.
        returns (tt, record { word = d.word; sound = d.sound; fits = omega (arith, d.fits) });
  }

  pub link_data1 : (v : ℕ) → Total w Any (return_data1 v)
  unfolding return_data1
  link_data1 v = record {
    run = λ s d.
        returns (tt, record { word = d.word; sound = d.sound; fits = omega (arith, d.fits) });
  }

  pub link_data2 : (v : ℕ) → Total w Any (return_data2 v)
  unfolding return_data2
  link_data2 v = record {
    run = λ s d.
        returns (tt, record { word = d.word; sound = d.sound; fits = omega (arith, d.fits) });
  }

  pub link_data3 : (v : ℕ) → Total w Any (return_data3 v)
  unfolding return_data3
  link_data3 v = record {
    run = λ s d.
        returns (tt, record { word = d.word; sound = d.sound; fits = omega (arith, d.fits) });
  }

  pub write_sprm : (i v : ℕ) → Total w Any (set_sprm i v)
  unfolding set_sprm
  write_sprm i v = bind registers λ r ok. put (record {
    sprm_size = omega (arith, ok, length-set r.sprm i (u16 v));
    gprm_size = ok.gprm_size;
    mode_size = ok.mode_size;
    time_size = ok.time_size;
    sprm_fit = All-set (λ x. x < 2 ^ 16) r.sprm i (u16 v) ok.sprm_fit (omega arith);
    gprm_fit = ok.gprm_fit;
    mode_fit = ok.mode_fit;
  })

-- The answer of an action of which nothing is needed.
pub done : {w : ℕ} {A : Type 0} (a : A) → Total w Any (pure a)
done {w} a = return w a tt
