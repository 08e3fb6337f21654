-- ===== src/Host/Laws.antt =====
-- What a computation adds to the log of calls, part by part, and that it stops at a failure.
use quincy_tun.Base.{
  Bool, true, false, not, ◌&&◌, arith, ◌≡◌, refl, sym, ap, ◌∙◌, List, [], ◌∷◌, ◌++◌, append_assoc,
  append-nil, Outcome, ok, err, panic, ErrorKind,
}
use quincy_tun.Host.{Event, Host, M, call, pure, next, ◌>>=◌, finally, attempt}

-- `P` holds where the run returns a value.
abbrev pub IfOk {ℓ} : {A : Type ℓ} → Outcome A → Type 0 → Type 0
IfOk (ok a) P = P
IfOk (err e) P = Unit
IfOk panic P = Unit

if_ok : {A : Type 0} (r : Outcome A) (P : Type 0) → P → IfOk r P
if_ok (ok a) P p = p
if_ok (err e) P p = tt
if_ok panic P p = tt

abbrev pub is_ok : {A : Type 0} → Outcome A → Bool
is_ok (ok a) = true
is_ok (err e) = false
is_ok panic = false

-- What of a call counts, and which calls have to succeed.
pub record View {C : Type 0} (Reply : C → Type 0) (D : Type 0) : Type 0 where
  pub shows : Event Reply → List D
  pub must : C → Bool

module _ {C D : Type 0} {Reply : C → Type 0} (view : View Reply D) where
  -- What counts of a log.
  unfoldable pub seen : List (Event Reply) → List D
  seen [] = []
  seen (e ∷ log) = view.shows e ++ seen log

  pub seen-append : (log log' : List (Event Reply)) → seen (log ++ log') ≡ seen log ++ seen log'
  unfolding seen
  seen-append [] log' = refl
  seen-append (e ∷ log) log' =
      ap (λ t. view.shows e ++ t) (seen-append log log')
      ∙ sym (append_assoc (view.shows e) (seen log) (seen log'))

  pub seen-snoc :
      (log : List (Event Reply)) (e : Event Reply) → seen (log ++ e ∷ []) ≡ seen log ++ view.shows e
  unfolding seen
  seen-snoc log e = seen-append log (e ∷ []) ∙ ap (λ t. seen log ++ t) (append-nil (view.shows e))

  -- A call that has to succeed and did not.
  abbrev pub failed : Event Reply → Bool
  failed (c, r) = view.must c && not (is_ok r)

  -- Nothing that counts comes after a failed call, and there is no success; `b` says if there is one.
  abbrev pub Stops : List (Event Reply) → Bool → Type 0
  Stops [] b = Unit
  Stops (e ∷ more) b = (failed e ≡ true → (b ≡ false) × (seen more ≡ [])) × Stops more b

  -- No call failed, and none counts.
  abbrev pub Unheard : List (Event Reply) → Type 0
  Unheard [] = Unit
  Unheard (e ∷ more) = (failed e ≡ false) × (view.shows e ≡ []) × Unheard more

  Stops-append :
      (log more : List (Event Reply)) (b : Bool)
      → Stops log true
      → Stops more b
      → Stops (log ++ more) b
  Stops-append [] more b k l = l
  Stops-append (e ∷ log) more b k l =
      (λ f. let x = (k.0 f).0 in absurd (cc), Stops-append log more b k.1 l)

  Unheard-seen : (more : List (Event Reply)) → Unheard more → seen more ≡ []
  unfolding seen
  Unheard-seen [] q = refl
  Unheard-seen (e ∷ more) q = rw q.1 (Unheard-seen more q.2)

  Unheard-Stops : (more : List (Event Reply)) (b : Bool) → Unheard more → Stops more b
  Unheard-Stops [] b q = tt
  Unheard-Stops (e ∷ more) b q = (λ f. let x = q.0 in absurd (cc), Unheard-Stops more b q.2)

  Stops-quiet :
      (log more : List (Event Reply)) (b : Bool)
      → Stops log b
      → Unheard more
      → Stops (log ++ more) b
  Stops-quiet [] more b k q = Unheard-Stops more b q
  Stops-quiet (e ∷ log) more b k q = (
    λ f.
        let x = k.0 f in
        (
          x.0,
          seen-append log more ∙ ap (λ t. seen log ++ t) (Unheard-seen more q) ∙ append-nil _ ∙ x.1,
        ),
    Stops-quiet log more b k.1 q,
  )

  one-Stops : (c : C) (r : Outcome (Reply c)) → Stops ((c, r) ∷ []) (is_ok r)
  unfolding seen
  one-Stops c r = (λ f. (no_success (view.must c) (is_ok r) f, refl), tt)
    where
      no_success : (m b : Bool) → (m && not b) ≡ true → b ≡ false
      no_success m true f = ground arith
      no_success m false f = refl

  -- A computation keeps to a plan: what is seen of its calls are the first steps of the plan, and all of
  -- them if it returns a value; and it stops at a call that has to succeed and does not.
  pub record Keeps {A : Type 0} (plan : List D) (log : List (Event Reply))
      (r : List (Event Reply) × Outcome A) : Type 0 where
    pub more : List (Event Reply)
    pub left : List D
    pub logged : r.0 ≡ log ++ more
    pub planned : seen more ++ left ≡ plan
    pub whole : IfOk r.1 (left ≡ [])
    pub stops : Stops more (is_ok r.1)

  -- A computation keeps to a plan wherever it starts.
  pub record Follows {A : Type 0} (plan : List D) (m : M Reply A) : Type 0 where
    pub keeps : (h : Host Reply) (log : List (Event Reply)) → Keeps plan log (m h log)

  -- A computation of which nothing is seen, and where no call has to succeed.
  pub record Idle {A : Type 0} (m : M Reply A) : Type 0 where
    pub idles :
        (h : Host Reply) (log : List (Event Reply))
        → (more : List (Event Reply)) × ((m h log).0 ≡ log ++ more) × Unheard more

  pub call-Idle :
      (c : C)
      → ((r : Outcome (Reply c)) → view.shows (c, r) ≡ [])
      → view.must c ≡ false
      → Idle (call Reply c)
  call-Idle c same free = record {
    idles = λ h log. ((c, h log c) ∷ [], refl, (rw free refl, same (h log c), tt));
  }

  pub pure-Follows : {A : Type 0} (r : Outcome A) → Follows [] (pure r)
  unfolding seen
  pure-Follows r = record {
    keeps = λ h log. record {
      more = [];
      left = [];
      logged = sym (append-nil log);
      planned = refl;
      whole = if_ok r ([] ≡ []) refl;
      stops = tt;
    };
  }

  pub fail-Follows : {A : Type 0} (p : List D) (e : ErrorKind) → Follows {A = A} p (pure (err e))
  unfolding seen
  fail-Follows p e = record {
    keeps = λ h log. record {
      more = [];
      left = p;
      logged = sym (append-nil log);
      planned = refl;
      whole = tt;
      stops = tt;
    };
  }

  pub panic-Follows : {A : Type 0} (p : List D) → Follows {A = A} p (pure panic)
  unfolding seen
  panic-Follows p = record {
    keeps = λ h log. record {
      more = [];
      left = p;
      logged = sym (append-nil log);
      planned = refl;
      whole = tt;
      stops = tt;
    };
  }

  pub call-Follows :
      (c : C) (p : List D)
      → ((r : Outcome (Reply c)) → view.shows (c, r) ≡ p)
      → Follows p (call Reply c)
  unfolding seen
  call-Follows c p same = record {
    keeps = λ h log. record {
      more = (c, h log c) ∷ [];
      left = [];
      logged = refl;
      planned = append-nil _ ∙ append-nil _ ∙ same (h log c);
      whole = if_ok (h log c) ([] ≡ []) refl;
      stops = one-Stops c (h log c);
    };
  }

  -- After the first part, the second one where there is a value, nothing where there is none.
  bind-Keeps :
      {A B : Type 0} (p q : List D) (f : A → M Reply B) (h : Host Reply) (log : List (Event Reply))
      (r : List (Event Reply) × Outcome A)
      → Keeps p log r
      → ((a : A) → Follows q (f a))
      → Keeps (p ++ q) log (next f h r.0 r.1)
  bind-Keeps p q f h log (log', ok a) k g =
      let s = (g a).keeps h log' in
      record {
        more = k.more ++ s.more;
        left = s.left;
        logged = s.logged ∙ ap (λ t. t ++ s.more) k.logged ∙ append_assoc log k.more s.more;
        planned =
            ap (λ t. t ++ s.left) (seen-append k.more s.more)
            ∙ append_assoc (seen k.more) (seen s.more) s.left
            ∙ ap (λ t. seen k.more ++ t) s.planned
            ∙ ap (λ t. t ++ q)
                (sym (append-nil (seen k.more))
                  ∙ ap (λ t. seen k.more ++ t) (sym k.whole)
                  ∙ k.planned);
        whole = s.whole;
        stops = Stops-append k.more s.more (is_ok (f a h log').1) k.stops s.stops;
      }
  bind-Keeps p q f h log (log', err e) k g = record {
    more = k.more;
    left = k.left ++ q;
    logged = k.logged;
    planned = sym (append_assoc (seen k.more) k.left q) ∙ ap (λ t. t ++ q) k.planned;
    whole = tt;
    stops = k.stops;
  }
  bind-Keeps p q f h log (log', panic) k g = record {
    more = k.more;
    left = k.left ++ q;
    logged = k.logged;
    planned = sym (append_assoc (seen k.more) k.left q) ∙ ap (λ t. t ++ q) k.planned;
    whole = tt;
    stops = k.stops;
  }

  pub bind-Follows :
      {A B : Type 0} (p q : List D) (m : M Reply A) (f : A → M Reply B)
      → Follows p m
      → ((a : A) → Follows q (f a))
      → Follows (p ++ q) (m >>= f)
  bind-Follows p q m f k g = record {
    keeps = λ h log. bind-Keeps p q f h log (m h log) (k.keeps h log) g;
  }

  -- A part of which nothing is seen, first and last.
  pub after-Follows :
      {A B : Type 0} {q : List D} (m : M Reply A) (f : A → M Reply B)
      → Follows [] m
      → ((a : A) → Follows q (f a))
      → Follows q (m >>= f)
  after-Follows {q = q} m f k g = bind-Follows [] q m f k g

  -- More calls that are quiet, with a result that succeeds only where the other one does.
  pub quiet-Keeps :
      {A B : Type 0} (p : List D) (log log' more : List (Event Reply)) (r : Outcome A)
      (r' : Outcome B) (last : List (Event Reply))
      → is_ok r' ≡ is_ok r
      → Keeps p log (log', r)
      → last ≡ log' ++ more
      → Unheard more
      → Keeps p log (last, r')
  quiet-Keeps p log log' more r r' last same k e q = record {
    more = k.more ++ more;
    left = k.left;
    logged = e ∙ ap (λ t. t ++ more) k.logged ∙ append_assoc log k.more more;
    planned =
        ap (λ t. t ++ k.left)
          (seen-append k.more more
            ∙ ap (λ t. seen k.more ++ t) (Unheard-seen more q)
            ∙ append-nil (seen k.more))
        ∙ k.planned;
    whole = if_same r r' k.left same k.whole;
    stops = rw same (Stops-quiet k.more more (is_ok r) k.stops q);
  }
    where
      if_same :
          {A B : Type 0} (r : Outcome A) (r' : Outcome B) (left : List D)
          → is_ok r' ≡ is_ok r
          → IfOk r (left ≡ [])
          → IfOk r' (left ≡ [])
      if_same r (err e) left same w = tt
      if_same r panic left same w = tt
      if_same (ok a) (ok b) left same w = w
      if_same (err e) (ok b) left same w = absurd (cc)
      if_same panic (ok b) left same w = absurd (cc)

  pub finally-Follows :
      {A B : Type 0} {p : List D} (m : M Reply A) (cleanup : M Reply B)
      → Follows p m
      → Idle cleanup
      → Follows p (finally m cleanup)
  finally-Follows {p = p} m cleanup k c = record {
    keeps = λ h log.
        let (more, e, q) = c.idles h (m h log).0 in
        quiet-Keeps p log (m h log).0 more (m h log).1 (m h log).1 (cleanup h (m h log).0).0 refl
          (k.keeps h log) e q;
  }

  pub attempt-Follows : {A : Type 0} (m : M Reply A) → Idle m → Follows [] (attempt m)
  attempt-Follows m k = record {
    keeps = λ h log.
        let (more, e, q) = k.idles h log in
        record {
          more = more;
          left = [];
          logged = e;
          planned = append-nil (seen more) ∙ Unheard-seen more q;
          whole = refl;
          stops = Unheard-Stops more true q;
        };
  }

  -- A call whose answer does not matter is made.
  pub attempt-call-Follows :
      (c : C) (p : List D)
      → ((r : Outcome (Reply c)) → view.shows (c, r) ≡ p)
      → view.must c ≡ false
      → Follows p (attempt (call Reply c))
  unfolding seen
  attempt-call-Follows c p same free = record {
    keeps = λ h log. record {
      more = (c, h log c) ∷ [];
      left = [];
      logged = refl;
      planned = append-nil _ ∙ append-nil _ ∙ same (h log c);
      whole = refl;
      stops = (rw free (λ f. absurd (cc)), tt);
    };
  }
