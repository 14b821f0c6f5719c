-- ===== src/Database/Lock.antt =====
-- src/database.rs: no session goes back to the pool with the lock, and nothing runs without it.
use whaletracker.Prelude.{
  ℕ, ◌≡◌, ◌≢◌, ◌⊎◌, inl, inr, refl, arith, true, false, ◌==◌, ==_iff, Bool-cases,
}
use whaletracker.Database.{
  Answer, row, null, failed, Ran, ran, refused, unwinds, done, Fate, pooled, closed, Server,
  Released, release, finish, with_named_lock,
}

-- What the server documents of its answers: 1 from GET_LOCK is the lock, 0 is a timeout without
-- it, and 1 from RELEASE_LOCK is its end. Any other answer and a failed query say nothing.
pub record Honest (server : Server) : Type 0 where
  pub granted : server.get_lock ≡ row 1 → server.got ≡ true
  pub timed_out : server.get_lock ≡ row 0 → server.got ≡ false
  pub ended : server.release_lock ≡ row 1 → server.kept ≡ false

abbrev pub NotLocked : Fate → Type 0
NotLocked (pooled held) = held ≡ false
NotLocked closed = Unit {0}

Answer-cases : (a : Answer) → ((n : ℕ) × (a ≡ row n)) ⊎ ((a ≡ null) ⊎ (a ≡ failed))
Answer-cases (row n) = inl (n, refl)
Answer-cases null = inr (inl refl)
Answer-cases failed = inr (inr refl)

abbrev ReleasedWell : Released → Type 0
ReleasedWell (Released.released f) = NotLocked f
ReleasedWell (Released.not_released e) = Unit {0}

release-ReleasedWell : (server : Server) → Honest server → ReleasedWell (release server)
unfolding release
release-ReleasedWell server h = elim (Answer-cases server.release_lock) [
  | inl (n, e) ↦ rw e (elim (Bool-cases (n == 1)) [
    | inl one ↦ rw one (h.ended (rw (← (==_iff n 1).0 one) e))
    | inr other ↦ rw other tt
  ])
  | inr (inl e) ↦ rw e tt
  | inr (inr e) ↦ rw e tt
]

finish-NotLocked {ℓ} :
    {A : Type ℓ} (r : Ran A) (x : Released) → ReleasedWell x → NotLocked (finish r x).1
unfolding finish
finish-NotLocked (ran a) (Released.released f) h = h
finish-NotLocked refused (Released.released f) h = h
finish-NotLocked unwinds (Released.released f) h = h
finish-NotLocked (ran a) (Released.not_released e) h = tt
finish-NotLocked refused (Released.not_released e) h = tt
finish-NotLocked unwinds (Released.not_released e) h = tt

finish-gives {ℓ} :
    {A : Type ℓ} (server : Server) (r : Ran A) (a : A)
    → server.release_lock ≡ row 1
    → r ≡ ran a
    → (finish r (release server)).0 ≡ done a
unfolding finish release
finish-gives server r a ended e = rw (e, ended) refl

finish-done {ℓ} :
    {A : Type ℓ} (r : Ran A) (x : Released) (a : A) → (finish r x).0 ≡ done a → r ≡ ran a
unfolding finish
finish-done (ran b) (Released.released f) a h = cc
finish-done refused (Released.released f) a h = cc
finish-done unwinds (Released.released f) a h = cc
finish-done (ran b) (Released.not_released e) a h = cc
finish-done refused (Released.not_released e) a h = cc
finish-done unwinds (Released.not_released e) a h = cc

module _ {ℓ κ} {S : Type ℓ} {A : Type κ} where
  row-NotLocked :
      (server : Server) (operation : S → Ran A × S) (s : S) (n : ℕ)
      → Honest server
      → server.get_lock ≡ row n
      → NotLocked (with_named_lock server operation s).2
  unfolding with_named_lock
  row-NotLocked server operation s n h e = rw e (elim (Bool-cases (n == 1)) [
    | inl one ↦
        rw one (finish-NotLocked (operation s).0 (release server) (release-ReleasedWell server h))
    | inr other ↦ rw other (elim (Bool-cases (n == 0)) [
      | inl zero' ↦ rw zero' (h.timed_out (rw ((==_iff n 0).0 zero') at e))
      | inr odd ↦ rw odd tt
    ])
  ])

  -- With a server that answers as documented, whatever the operation does, also where it fails or
  -- unwinds, the session is not in the pool with the lock afterwards.
  pub with_named_lock-NotLocked :
      (server : Server) (operation : S → Ran A × S) (s : S)
      → Honest server
      → NotLocked (with_named_lock server operation s).2
  unfolding with_named_lock
  with_named_lock-NotLocked server operation s h = elim (Answer-cases server.get_lock) [
    | inl (n, e) ↦ row-NotLocked server operation s n h e
    | inr (inl e) ↦ rw e tt
    | inr (inr e) ↦ rw e tt
  ]

  -- With a server that answers as documented and does not give the lock, the operation does not
  -- run: the state stays, and nothing is returned as its value.
  pub with_named_lock-Exclusive :
      (server : Server) (operation : S → Ran A × S) (s : S)
      → Honest server
      → server.got ≡ false
      → ((with_named_lock server operation s).0 ≡ s)
        × ((a : A) → (with_named_lock server operation s).1 ≢ done a)
  unfolding with_named_lock
  with_named_lock-Exclusive server operation s h g = elim (Answer-cases server.get_lock) [
    | inl (n, e) ↦ rw e (elim (Bool-cases (n == 1)) [
      | inl one ↦ cc (h.granted (rw ((==_iff n 1).0 one) at e))
      | inr other ↦ rw other (elim (Bool-cases (n == 0)) [
        | inl zero' ↦ rw zero' (refl, λ a. cc)
        | inr odd ↦ rw odd (refl, λ a. cc)
      ])
    ])
    | inr (inl e) ↦ rw e (refl, λ a. cc)
    | inr (inr e) ↦ rw e (refl, λ a. cc)
  ]

  -- What holds of the state before the operation and after it holds after the whole call.
  pub with_named_lock-keeps {μ} :
      (P : S → Type μ) (server : Server) (operation : S → Ran A × S) (s : S)
      → P s
      → P (operation s).1
      → P (with_named_lock server operation s).0
  unfolding with_named_lock
  with_named_lock-keeps P server operation s before after = elim (Answer-cases server.get_lock) [
    | inl (n, e) ↦ rw e (ground arith)
    | inr (inl e) ↦ rw e before
    | inr (inr e) ↦ rw e before
  ]

  -- A value is the operation's, and so is the state.
  pub with_named_lock-done :
      (server : Server) (operation : S → Ran A × S) (s : S) (a : A)
      → (with_named_lock server operation s).1 ≡ done a
      → ((operation s).0 ≡ ran a) × ((with_named_lock server operation s).0 ≡ (operation s).1)
  unfolding with_named_lock
  with_named_lock-done server operation s a h = elim (Answer-cases server.get_lock) [
    | inl (n, e) ↦
        let h' = rw (e, with_named_lock) at h in
        rw e (elim (Bool-cases (n == 1)) [
          | inl one ↦
              let h'' = rw one at h' in
              rw one (finish-done (operation s).0 (release server) a h'', refl)
          | inr other ↦ let h'' = rw other at h' in absurd (ground arith)
        ])
    | inr (inl e) ↦ let h' = rw (e, with_named_lock) at h in cc
    | inr (inr e) ↦ let h' = rw (e, with_named_lock) at h in cc
  ]

  -- Where the server gives the lock and ends it, the operation's value is returned.
  pub with_named_lock-gives :
      (server : Server) (operation : S → Ran A × S) (s : S) (a : A)
      → server.get_lock ≡ row 1
      → server.release_lock ≡ row 1
      → (operation s).0 ≡ ran a
      → (with_named_lock server operation s).1 ≡ done a
  unfolding with_named_lock
  with_named_lock-gives server operation s a got ended r =
      rw (got, with_named_lock) (finish-gives server (operation s).0 a ended r)
