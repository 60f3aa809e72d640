-- ===== src/Web/ServiceHub/Sound.antt =====
-- What holds of the commands that wait in internal/web/service_hub.go, and that the changes of a
-- single command keep it.
use picoaide.Prelude.{
  ℕ, ◌<◌, ◌≡◌, refl, sym, ap, ◌∙◌, inl, inr, true, false, Option, none, some, ◌==◌, arith,
  Bool-cases, of_if,
}
use picoaide.Web.ServiceHub.{
  Response, Channel, Answer, Call, AgentConn, Hub, is_closed, is_free, change_call, forget, cancel,
  deliver, return_with, receive, empty, closed, holding, result, timed_out, write_failed, cancelled,
  disconnected,
}
use picoaide.Web.ServiceHub.Steps.{is_none}

-- What the channel of a call holds came on the connection of the call, with its number.
abbrev pub Belongs : ℕ → ℕ → Channel → Type 0
Belongs conn id empty = Unit
Belongs conn id closed = Unit
Belongs conn id (holding c response) = (c ≡ conn) × (response.id ≡ id)

abbrev pub AnswerBelongs : ℕ → ℕ → Option Answer → Type 0
AnswerBelongs conn id none = Unit
AnswerBelongs conn id (some (result c response)) = (c ≡ conn) × (response.id ≡ id)
AnswerBelongs conn id (some timed_out) = Unit
AnswerBelongs conn id (some write_failed) = Unit
AnswerBelongs conn id (some cancelled) = Unit
AnswerBelongs conn id (some disconnected) = Unit

pub record IsSound (call : Call) : Type 0 where
  pub unresolved : call.resolved ≡ false → call.channel ≡ empty
  pub held : Belongs call.conn call.id call.channel
  pub answered : AnswerBelongs call.conn call.id call.answer
  pub resolved_full :
      is_none call.answer ≡ true → call.resolved ≡ true → is_free call.channel ≡ false
  pub stopped_full : is_none call.answer ≡ true → call.timer ≡ false → is_free call.channel ≡ false

abbrev pub Linked : Hub → ℕ → ℕ → ℕ → Type 0
Linked h c id k = ((h.calls k).conn ≡ c) × ((h.calls k).id ≡ id) × (k < h.call_count)

pub record IsValid (h : Hub) : Type 0 where
  pub sound : (k : ℕ) → IsSound (h.calls k)
  pub linked : (c id k : ℕ) → (h.conns c).pending id ≡ some k → Linked h c id k
  pub no_fault : h.fault ≡ false

pub change_call-IsValid :
    (k : ℕ) (f : Call → Call) (h : Hub)
    → ((call : Call) → ((f call).conn ≡ call.conn) × ((f call).id ≡ call.id))
    → IsSound (f (h.calls k))
    → IsValid h
    → IsValid (change_call k f h)
change_call-IsValid k f h same s v = record {
  sound = λ n. of_if IsSound (n == k) (λ _. s) (λ _. v.sound n);
  linked = λ c id n e.
      of_if (λ (call : Call). (call.conn ≡ c) × (call.id ≡ id) × (n < h.call_count)) (n == k)
        (λ at.
          let (l, m, b) = v.linked c id n e in
          let here : n ≡ k = ground (arith, at) in
          (
            (same (h.calls k)).0 ∙ ap (λ i. (h.calls i).conn) (sym here) ∙ l,
            (same (h.calls k)).1 ∙ ap (λ i. (h.calls i).id) (sym here) ∙ m,
            b,
          ))
        (λ _. v.linked c id n e);
  no_fault = v.no_fault;
}

pending_after_forget :
    (c id : ℕ) (h : Hub) (c' id' k : ℕ)
    → ((forget c id h).conns c').pending id' ≡ some k
    → (h.conns c').pending id' ≡ some k
pending_after_forget c id h c' id' k =
    of_if (λ (conn : AgentConn). conn.pending id' ≡ some k → (h.conns c').pending id' ≡ some k)
      (c' == c)
      (λ at.
        of_if (λ (o : Option ℕ). o ≡ some k → (h.conns c').pending id' ≡ some k) (id' == id)
          (λ _ e. absurd (ground (arith, e)))
          (λ _ e.
            let here : c' ≡ c = ground (arith, at) in ap (λ i. (h.conns i).pending id') here ∙ e))
      (λ _ e. e)

pub forget-IsValid : (c id : ℕ) (h : Hub) → IsValid h → IsValid (forget c id h)
forget-IsValid c id h v = record {
  sound = v.sound;
  linked = λ c' id' k e. v.linked c' id' k (pending_after_forget c id h c' id' k e);
  no_fault = v.no_fault;
}

resolve-IsValid :
    (k : ℕ) (ch : Channel) (h : Hub)
    → Belongs (h.calls k).conn (h.calls k).id ch
    → is_free ch ≡ false
    → IsValid h
    → IsValid
        (change_call k (λ call. record call { resolved = true; timer = false; channel = ch }) h)
resolve-IsValid k ch h belongs full v =
    change_call-IsValid k (λ call. record call { resolved = true; timer = false; channel = ch }) h
      (λ call. (refl, refl))
      (record {
        unresolved = λ e. absurd (ground (arith, e));
        held = belongs;
        answered = (v.sound k).answered;
        resolved_full = λ _ _. full;
        stopped_full = λ _ _. full;
      })
      v

pub cancel-IsValid : (k : ℕ) (h : Hub) → IsValid h → IsValid (cancel k h)
cancel-IsValid k h v = elim (Bool-cases (h.calls k).resolved) [
  | inl done ↦ rw done v
  | inr open_ ↦
      rw open_
        (rw (ap is_closed ((v.sound k).unresolved open_)) (resolve-IsValid k closed h tt refl v))
]

pub deliver-IsValid :
    (k c : ℕ) (response : Response) (h : Hub)
    → c ≡ (h.calls k).conn
    → response.id ≡ (h.calls k).id
    → IsValid h
    → IsValid (deliver k c response h)
deliver-IsValid k c response h from id_ v = elim (Bool-cases (h.calls k).resolved) [
  | inl done ↦ rw done v
  | inr open_ ↦ rw open_ (
      rw (ap is_free ((v.sound k).unresolved open_))
        (resolve-IsValid k (holding c response) h (from, id_) refl v))
]

pub cancel-resolved : (k : ℕ) (h : Hub) → ((cancel k h).calls k).resolved ≡ true
cancel-resolved k h = elim (Bool-cases (h.calls k).resolved) [
  | inl done ↦ rw done done
  | inr open_ ↦ rw open_ (ground arith)
]

pub stop_timer-IsValid :
    (k : ℕ) (h : Hub)
    → (h.calls k).resolved ≡ true
    → IsValid h
    → IsValid (change_call k (λ call. record call { timer = false }) h)
stop_timer-IsValid k h done v =
    change_call-IsValid k (λ call. record call { timer = false }) h (λ call. (refl, refl))
      (record {
        unresolved = (v.sound k).unresolved;
        held = (v.sound k).held;
        answered = (v.sound k).answered;
        resolved_full = (v.sound k).resolved_full;
        stopped_full = λ waits _. (v.sound k).resolved_full waits done;
      })
      v

pub return_with-IsValid :
    (k : ℕ) (answer : Answer) (h : Hub)
    → AnswerBelongs (h.calls k).conn (h.calls k).id (some answer)
    → IsValid h
    → IsValid (return_with k answer h)
return_with-IsValid k answer h belongs v =
    forget-IsValid (h.calls k).conn (h.calls k).id
      (change_call k (λ call. record call { timer = false; answer = some answer }) h)
      (change_call-IsValid k (λ call. record call { timer = false; answer = some answer }) h
        (λ call. (refl, refl))
        (record {
          unresolved = (v.sound k).unresolved;
          held = (v.sound k).held;
          answered = belongs;
          resolved_full = λ e. absurd (ground (arith, e));
          stopped_full = λ e. absurd (ground (arith, e));
        })
        v)

pub receive-IsValid :
    (k : ℕ) (ch : Channel) (h : Hub)
    → Belongs (h.calls k).conn (h.calls k).id ch
    → IsValid h
    → IsValid (receive k ch h)
receive-IsValid k empty h b v = v
receive-IsValid k closed h b v = return_with-IsValid k timed_out h tt v
receive-IsValid k (holding c response) h b v = return_with-IsValid k (result c response) h b v
