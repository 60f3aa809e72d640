-- ===== src/Web/ServiceHub/Registry.antt =====
-- Which connection internal/web/service_hub.go has registered for a user, and how the steps that touch
-- the registry change it.
use picoaide.Prelude.{
  ℕ, ◌+◌, ◌<◌, ◌≡◌, refl, sym, ap, ap₂, ◌∙◌, inl, inr, String, true, false, Option, none, some,
  ◌==◌, str_eq, eq_iff, eq_refl, eq_of_some, arith, Bool-cases, of_if,
}
use picoaide.Web.ServiceHub.{
  AgentConn, Hub, update, change_conn, new_conn, add_conn, is_current, unregister,
}
use picoaide.Web.ServiceHub.Frames.{Same}

-- No later connection is of the same user.
abbrev pub IsNewest : Hub → ℕ → Type 0
IsNewest h c =
    (c' : ℕ)
    → c < c'
    → c' < h.conn_count
    → str_eq (h.conns c').username (h.conns c).username ≡ false

abbrev pub IsFound : Hub → String → ℕ → Type 0
IsFound h u c = (c < h.conn_count) × ((h.conns c).username ≡ u) × IsNewest h c

pub record IsRegistry (h : Hub) : Type 0 where
  pub found : (u : String) (c : ℕ) → h.registered u ≡ some c → IsFound h u c
  pub kept :
      (c : ℕ)
      → c < h.conn_count
      → IsNewest h c
      → (h.conns c).done ≡ false
      → h.registered (h.conns c).username ≡ some c

IsNewest-Same : {h h' : Hub} (c : ℕ) → Same h h' → IsNewest h c → IsNewest h' c
IsNewest-Same c s n c' less in_ =
    rw (s.names c') (rw (s.names c) (n c' less (omega (arith, in_, s.count))))

IsNewest-Same_back : {h h' : Hub} (c : ℕ) → Same h h' → IsNewest h' c → IsNewest h c
IsNewest-Same_back c s n c' less in_ =
    rw (sym (s.names c')) (rw (sym (s.names c)) (n c' less (omega (arith, in_, s.count))))

pub Same-IsRegistry : (h h' : Hub) → Same h h' → IsRegistry h → IsRegistry h'
Same-IsRegistry h h' s v = record {
  found = λ u c e.
      let (in_, name, newest) = v.found u c (sym (s.registry u) ∙ e) in
      (omega (arith, in_, s.count), s.names c ∙ name, IsNewest-Same c s newest);
  kept = λ c in_ newest open_.
      ap h'.registered (s.names c)
      ∙ s.registry (h.conns c).username
      ∙ v.kept c (omega (arith, in_, s.count)) (IsNewest-Same_back c s newest)
          (sym (s.ends c) ∙ open_);
}

ne_sym : (s t : String) → str_eq s t ≡ false → str_eq t s ≡ false
ne_sym s t h = ground (arith, h, eq_iff s t, eq_iff t s)

module _ (u : String) (h : Hub) where
  old_conn : (c : ℕ) → c < h.conn_count → update h.conns h.conn_count (new_conn u) c ≡ h.conns c
  old_conn c in_ = ground (arith, in_)

  last_conn : (c : ℕ) → c ≡ h.conn_count → update h.conns h.conn_count (new_conn u) c ≡ new_conn u
  last_conn c e = ground (arith, e)

  -- Names after one more connection, from those before.
  differ :
      (c c' : ℕ) (name : String)
      → c < h.conn_count
      → (h.conns c).username ≡ name
      → (c' ≡ h.conn_count → str_eq u name ≡ false)
      → (c' < h.conn_count → str_eq (h.conns c').username (h.conns c).username ≡ false)
      → c' < h.conn_count + 1
      → str_eq ((add_conn u h).conns c').username ((add_conn u h).conns c).username ≡ false
  differ c c' name in_ e new old in' = elim (Bool-cases (c' == h.conn_count)) [
    | inl last ↦
        ap₂ str_eq (ap (λ conn. conn.username) (last_conn c' (ground (arith, last))))
          (ap (λ conn. conn.username) (old_conn c in_) ∙ e)
        ∙ new (ground (arith, last))
    | inr before ↦
        ap₂ str_eq (ap (λ conn. conn.username) (old_conn c' (ground (arith, before, in'))))
          (ap (λ conn. conn.username) (old_conn c in_))
        ∙ old (ground (arith, before, in'))
  ]

  kept_old :
      IsRegistry h
      → (c : ℕ) → c < h.conn_count
      → IsNewest (add_conn u h) c
      → ((add_conn u h).conns c).done ≡ false
      → (add_conn u h).registered ((add_conn u h).conns c).username ≡ some c
  kept_old v c in_ newest open_ =
      let same = ap (λ conn. conn.username) (old_conn c in_) in
      let last = ap (λ conn. conn.username) (last_conn h.conn_count refl) in
      let apart : str_eq u (h.conns c).username ≡ false =
        ap₂ str_eq (sym last) (sym same) ∙ newest h.conn_count in_ (omega arith) in
      let before : IsNewest h c = λ c' less in'.
        ap₂ str_eq (sym (ap (λ conn. conn.username) (old_conn c' in'))) (sym same)
        ∙ newest c' less (omega (arith, in')) in
      ap (add_conn u h).registered same
      ∙ rw (ne_sym u (h.conns c).username apart)
          (v.kept c in_ before (sym (ap (λ conn. conn.done) (old_conn c in_)) ∙ open_))

  pub add_conn-IsRegistry : IsRegistry h → IsRegistry (add_conn u h)
  add_conn-IsRegistry v = record {
    found = λ u' c.
        of_if (λ (o : Option ℕ). o ≡ some c → IsFound (add_conn u h) u' c) (str_eq u' u)
          (λ same e.
            let last : c ≡ h.conn_count = sym (eq_of_some e) in
            (
              omega (arith, last),
              ap (λ conn. conn.username) (last_conn c last) ∙ sym ((eq_iff u' u).0 same),
              λ c' less in'. absurd (omega (arith, last, less, in')),
            ))
          (λ other e.
            let (in_, name, newest) = v.found u' c e in
            (
              omega (arith, in_),
              ap (λ conn. conn.username) (old_conn c in_) ∙ name,
              λ c' less in'. differ c c' u' in_ name (λ _. ne_sym u' u other) (newest c' less) in',
            ));
    kept = λ c in_ newest open_. elim (Bool-cases (c == h.conn_count)) [
      | inl last ↦
          ap (add_conn u h).registered
            (ap (λ conn. conn.username) (last_conn c (ground (arith, last))))
          ∙ rw (eq_refl u) (ap some (ground (arith, last)))
      | inr before ↦ kept_old v c (ground (arith, before, in_)) newest open_
    ];
  }

eq_of_current : (o : Option ℕ) (c : ℕ) → is_current o c ≡ true → o ≡ some c
eq_of_current none c h = absurd (ground (arith, h))
eq_of_current (some k) c h = ap some (ground (arith, h))

pub unregister-IsRegistry :
    (c : ℕ) (h : Hub) → (h.conns c).done ≡ true → IsRegistry h → IsRegistry (unregister c h)
unfolding unregister
unregister-IsRegistry c h over v =
    elim (Bool-cases (is_current (h.registered (h.conns c).username) c)) [
      | inl current ↦ rw current (record {
        found = λ u c'.
            of_if (λ (o : Option ℕ). o ≡ some c' → IsFound h u c') (str_eq u (h.conns c).username)
              (λ _ e. absurd (ground (arith, e))) (λ _ e. v.found u c' e);
        kept = λ c' in_ newest open_.
            elim (Bool-cases (str_eq (h.conns c').username (h.conns c).username)) [
              | inl same ↦ absurd (over_and_open current c' in_ newest open_ same)
              | inr other ↦ rw other (v.kept c' in_ newest open_)
            ];
      })
      | inr other ↦ rw other v
    ]
  where
    over_and_open :
        is_current (h.registered (h.conns c).username) c ≡ true
        → (c' : ℕ) → c' < h.conn_count
        → IsNewest h c'
        → (h.conns c').done ≡ false
        → str_eq (h.conns c').username (h.conns c).username ≡ true
        → ⊥
    over_and_open current c' in_ newest open_ same =
        let one =
          sym (v.kept c' in_ newest open_)
          ∙ ap h.registered ((eq_iff (h.conns c').username (h.conns c).username).0 same)
          ∙ eq_of_current (h.registered (h.conns c).username) c current in
        let both : false ≡ true = sym open_ ∙ ap (λ i. (h.conns i).done) (eq_of_some one) ∙ over in
        cc

end-Same_names :
    (c : ℕ) (h : Hub) (c' : ℕ)
    → ((change_conn c (λ conn. record conn { done = true }) h).conns c').username
      ≡ (h.conns c').username
end-Same_names c h c' =
    of_if (λ (conn : AgentConn). conn.username ≡ (h.conns c').username) (c' == c)
      (λ here. ap (λ i. (h.conns i).username) (ground (arith, here))) (λ _. refl)

end-open :
    (c : ℕ) (h : Hub) (c' : ℕ)
    → ((change_conn c (λ conn. record conn { done = true }) h).conns c').done ≡ false
    → (h.conns c').done ≡ false
end-open c h c' =
    of_if (λ (conn : AgentConn). conn.done ≡ false → (h.conns c').done ≡ false) (c' == c)
      (λ _ e. absurd (ground (arith, e))) (λ _ e. e)

pub end-IsRegistry :
    (c : ℕ) (h : Hub)
    → IsRegistry h
    → IsRegistry (change_conn c (λ conn. record conn { done = true }) h)
end-IsRegistry c h v =
    let names = end-Same_names c h in
    record {
      found = λ u c' e.
          let (in_, name, newest) = v.found u c' e in
          (
            in_,
            names c' ∙ name,
            λ c'' less in'. ap₂ str_eq (names c'') (names c') ∙ newest c'' less in',
          );
      kept = λ c' in_ newest open_.
          ap h.registered (names c')
          ∙ v.kept c' in_
              (λ c'' less in'. ap₂ str_eq (sym (names c'')) (sym (names c')) ∙ newest c'' less in')
              (end-open c h c' open_);
    }
