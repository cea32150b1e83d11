-- ===== src/Sockets/Descriptors.antt =====
-- The descriptors of the system that are open, and how its calls change them.
use kadpeer.Prelude.{
  ◌≡◌, ◌∙◌, ◌||◌, ◌&&◌, Bool, true, false, not, arith, refl, subst, sym, if◌then◌else◌,
}
use kadpeer.Prelude.Int.{ℤ, ◌==ℤ◌, ==ℤ_iff}
use kadpeer.Sockets.{
  System, Address, Attempt, returned, thrown, SocketException, attempt, conclude, ◌>>=◌, minus_one,
}
use kadpeer.Text.{Text}

-- The documented behaviour: a new descriptor is one that was not open, a failed call opens none,
-- `close` closes one, and the other calls open and close none.
pub record Laws {W : Type 0} (sys : System W) (is_open : W → ℤ → Bool) : Type 0 where
  pub minus_one_closed : (w : W) → is_open w minus_one ≡ false
  pub socket_fresh : (w : W) → is_open w (sys.socket_call w).0 ≡ false
  pub socket_opens :
      (w : W) (d : ℤ)
      → is_open (sys.socket_call w).1 d
        ≡ (is_open w d || (d ==ℤ (sys.socket_call w).0 && not (d ==ℤ minus_one)))
  pub accept_fresh : (w : W) (s : ℤ) → is_open w (sys.accept_call s w).0 ≡ false
  pub accept_opens :
      (w : W) (s d : ℤ)
      → is_open (sys.accept_call s w).2 d
        ≡ (is_open w d || (d ==ℤ (sys.accept_call s w).0 && not (d ==ℤ minus_one)))
  pub close_closes :
      (w : W) (s d : ℤ) → is_open (sys.close_call s w) d ≡ (is_open w d && not (d ==ℤ s))
  pub setsockopt_keeps : (w : W) (s d : ℤ) → is_open (sys.setsockopt_call s w).1 d ≡ is_open w d
  pub bind_keeps : (w : W) (s d : ℤ) (a : Address) → is_open (sys.bind_call s a w).1 d ≡ is_open w d
  pub listen_keeps : (w : W) (s d : ℤ) → is_open (sys.listen_call s w).1 d ≡ is_open w d
  pub connect_keeps :
      (w : W) (s d : ℤ) (a : Address) → is_open (sys.connect_call s a w).1 d ≡ is_open w d
  pub inet_pton_keeps :
      (w : W) (t : Text) (d : ℤ) → is_open (sys.inet_pton_call t w).1 d ≡ is_open w d

-- The descriptor, where it is one, was opened since the first state, and no other was opened or
-- closed.
pub record Holds {W : Type 0} (is_open : W → ℤ → Bool) (fd : ℤ) (w w' : W) : Type 0 where
  pub fresh : is_open w fd ≡ false
  pub opens : (d : ℤ) → is_open w' d ≡ (is_open w d || (d ==ℤ fd && not (d ==ℤ minus_one)))

-- What a constructor leaves: a socket with a new descriptor, or the descriptors as they were.
abbrev pub Constructed : {W S : Type 0} → (W → ℤ → Bool) → (S → ℤ) → W → Attempt S × W → Type 0
Constructed is_open descriptor w (returned s, w') =
    (descriptor s ==ℤ minus_one ≡ false) × Holds is_open (descriptor s) w w'
Constructed is_open descriptor w (thrown e, w') = (d : ℤ) → is_open w' d ≡ is_open w d

module _ {W : Type 0} {is_open : W → ℤ → Bool} where
  -- Later calls that open and close nothing.
  pub Holds-keeps :
      {fd fd' : ℤ} {w w' w'' : W}
      → Holds is_open fd w w'
      → fd' ≡ fd
      → ((d : ℤ) → is_open w'' d ≡ is_open w' d)
      → Holds is_open fd' w w''
  Holds-keeps {w} {w''} h e keeps =
      subst (λ fd. Holds is_open fd w w'') (sym e)
        (record { fresh = h.fresh; opens = λ d. keeps d ∙ h.opens d })

  -- The end of a socket whose constructor failed.
  pub Holds-close :
      {sys : System W} (laws : Laws sys is_open) {fd : ℤ} {w w' : W}
      → Holds is_open fd w w'
      → (d : ℤ)
      → is_open (if not (fd ==ℤ minus_one) then sys.close_call fd w' else w') d ≡ is_open w d
  Holds-close laws {fd} {w'} h d = ground (
    arith,
    laws.close_closes w' fd d,
    h.opens d,
    h.fresh,
    ==ℤ_iff d fd,
    ==ℤ_iff fd minus_one,
    ==ℤ_iff d minus_one,
  )

  pub socket-Holds :
      {sys : System W} (laws : Laws sys is_open) (w : W)
      → Holds is_open (sys.socket_call w).0 w (sys.socket_call w).1
  socket-Holds laws w = record { fresh = laws.socket_fresh w; opens = laws.socket_opens w }

-- The steps of a constructor, for a destructor that closes what the socket holds.
module _ {S W : Type 0} {is_open : W → ℤ → Bool} (descriptor : S → ℤ) (destroy : S → W → W)
    (closes : (s : S) (w w' : W)
      → Holds is_open (descriptor s) w w'
      → (d : ℤ) → is_open (destroy s w') d ≡ is_open w d)
    (w : W) where
  conclude-Constructed :
      (e : SocketException) (r : Bool × S × W)
      → Holds is_open (descriptor r.1) w r.2
      → (r.0 ≡ true → descriptor r.1 ==ℤ minus_one ≡ false)
      → Constructed is_open descriptor w (conclude destroy e r)
  unfolding conclude
  conclude-Constructed e (true, s, w') h v = (v refl, h)
  conclude-Constructed e (false, s, w') h v = closes s w w' h

  pub attempt-Constructed :
      (step : S → W → Bool × S × W) (e : SocketException) (s : S) (w' : W)
      → Holds is_open (descriptor (step s w').1) w (step s w').2
      → ((step s w').0 ≡ true → descriptor (step s w').1 ==ℤ minus_one ≡ false)
      → Constructed is_open descriptor w (attempt destroy step e s w')
  unfolding attempt
  attempt-Constructed step e s w' = conclude-Constructed e (step s w')

  -- A step after the first, which neither opens nor closes a descriptor.
  pub >>=-Constructed :
      (m : Attempt S × W) (step : S → W → Bool × S × W) (e : SocketException)
      → Constructed is_open descriptor w m
      → ((s : S) (w' : W) → descriptor (step s w').1 ≡ descriptor s)
      → ((s : S) (w' : W) (d : ℤ) → is_open (step s w').2 d ≡ is_open w' d)
      → Constructed is_open descriptor w (m >>= attempt destroy step e)
  >>=-Constructed (returned s, w') step e h same keeps =
      attempt-Constructed step e s w' (Holds-keeps h.1 (same s w') (keeps s w'))
        (λ _. rw (same s w') h.0)
  >>=-Constructed (thrown x, w') step e h same keeps = h
