-- ===== src/Web/ServiceHub/Frames.antt =====
-- What most steps of internal/web/service_hub.go leave alone: the users of the connections and who is
-- registered.
use picoaide.Prelude.{
  ℕ, zero, suc, ◌+◌, ◌≡◌, refl, ap, ◌∙◌, String, true, false, Option, none, some, if◌then◌else◌,
  ◌==◌, arith, of_if,
}
use picoaide.Web.ServiceHub.{
  Response, Channel, Answer, Call, AgentConn, Hub, update, is_closed, is_free, change_call,
  change_conn, forget, cancel, deliver, cancel_found, cancel_upto, close, kick, send, return_with,
  receive, time_out, deliver_found, read_message, empty, closed, holding, result, timed_out,
}

-- The users' connections are as before.
pub record Same (h h' : Hub) : Type 0 where
  pub names : (c : ℕ) → (h'.conns c).username ≡ (h.conns c).username
  pub ends : (c : ℕ) → (h'.conns c).done ≡ (h.conns c).done
  pub count : h'.conn_count ≡ h.conn_count
  pub registry : (u : String) → h'.registered u ≡ h.registered u

pub Same-refl : (h : Hub) → Same h h
Same-refl h = record { names = λ c. refl; ends = λ c. refl; count = refl; registry = λ u. refl }

pub Same-trans : {h i j : Hub} → Same h i → Same i j → Same h j
Same-trans s t = record {
  names = λ c. t.names c ∙ s.names c;
  ends = λ c. t.ends c ∙ s.ends c;
  count = t.count ∙ s.count;
  registry = λ u. t.registry u ∙ s.registry u;
}

-- Where a connection changes, but neither its user nor its end.
pub change_conn-Same :
    (c : ℕ) (f : AgentConn → AgentConn) (h : Hub)
    → ((f (h.conns c)).username ≡ (h.conns c).username)
    → ((f (h.conns c)).done ≡ (h.conns c).done)
    → Same h (change_conn c f h)
change_conn-Same c f h name end_ = record {
  names = λ n.
      of_if (λ (conn : AgentConn). conn.username ≡ (h.conns n).username) (n == c)
        (λ here. name ∙ ap (λ i. (h.conns i).username) (ground (arith, here))) (λ _. refl);
  ends = λ n.
      of_if (λ (conn : AgentConn). conn.done ≡ (h.conns n).done) (n == c)
        (λ here. end_ ∙ ap (λ i. (h.conns i).done) (ground (arith, here))) (λ _. refl);
  count = refl;
  registry = λ u. refl;
}

pub change_call-Same : (k : ℕ) (f : Call → Call) (h : Hub) → Same h (change_call k f h)
change_call-Same k f h = record {
  names = λ c. refl;
  ends = λ c. refl;
  count = refl;
  registry = λ u. refl;
}

pub fault-Same : (h : Hub) → Same h (record h { fault = true })
fault-Same h = record { names = λ c. refl; ends = λ c. refl; count = refl; registry = λ u. refl }

pub forget-Same : (c id : ℕ) (h : Hub) → Same h (forget c id h)
forget-Same c id h =
    change_conn-Same c (λ conn. record conn { pending = update conn.pending id none }) h refl refl

pub cancel-Same : (k : ℕ) (h : Hub) → Same h (cancel k h)
cancel-Same k h =
    of_if (Same h) (h.calls k).resolved (λ _. Same-refl h)
      (λ _.
        Same-trans
          (of_if (Same h) (is_closed (h.calls k).channel) (λ _. fault-Same h) (λ _. Same-refl h))
          (change_call-Same k
            (λ call. record call { resolved = true; timer = false; channel = closed })
            (if is_closed (h.calls k).channel then record h { fault = true } else h)))

pub deliver-Same : (k c : ℕ) (response : Response) (h : Hub) → Same h (deliver k c response h)
deliver-Same k c response h =
    of_if (Same h) (h.calls k).resolved (λ _. Same-refl h)
      (λ _.
        Same-trans
          (of_if (Same h) (is_free (h.calls k).channel) (λ _. Same-refl h) (λ _. fault-Same h))
          (change_call-Same k
            (λ call. record call { resolved = true; timer = false; channel = holding c response })
            (if is_free (h.calls k).channel then h else record h { fault = true })))

pub cancel_found-Same : (c id : ℕ) (o : Option ℕ) (h : Hub) → Same h (cancel_found c id o h)
cancel_found-Same c id none h = Same-refl h
cancel_found-Same c id (some k) h = Same-trans (cancel-Same k h) (forget-Same c id (cancel k h))

pub cancel_upto-Same : (c n : ℕ) (h : Hub) → Same h (cancel_upto c n h)
cancel_upto-Same c zero h = Same-refl h
cancel_upto-Same c (suc n) h =
    let rest = cancel_upto c n h in
    Same-trans (cancel_upto-Same c n h)
      (cancel_found-Same c (suc n) ((rest.conns c).pending (suc n)) rest)

pub close-Same : (c : ℕ) (h : Hub) → Same h (close c h)
unfolding close
close-Same c h =
    of_if (Same h) (h.conns c).done (λ _. Same-refl h)
      (λ _. cancel_upto-Same c (h.conns c).next_id h)

pub kick-Same : (o : Option ℕ) (h : Hub) → Same h (kick o h)
kick-Same none h = Same-refl h
kick-Same (some old) h = close-Same old h

pub send-Same : (c : ℕ) (h : Hub) → Same h (send c h)
unfolding send
send-Same c h =
    let s =
      change_conn-Same c
        (λ conn. record conn {
          next_id = (h.conns c).next_id + 1;
          pending = update conn.pending ((h.conns c).next_id + 1) (some h.call_count);
        })
        h refl refl in
    record { names = s.names; ends = s.ends; count = refl; registry = λ u. refl }

pub return_with-Same : (k : ℕ) (answer : Answer) (h : Hub) → Same h (return_with k answer h)
return_with-Same k answer h =
    Same-trans (change_call-Same k (λ call. record call { timer = false; answer = some answer }) h)
      (forget-Same (h.calls k).conn (h.calls k).id _)

pub receive-Same : (k : ℕ) (ch : Channel) (h : Hub) → Same h (receive k ch h)
receive-Same k empty h = Same-refl h
receive-Same k closed h = return_with-Same k timed_out h
receive-Same k (holding c response) h = return_with-Same k (result c response) h

pub time_out-Same : (k : ℕ) (h : Hub) → Same h (time_out k h)
unfolding time_out
time_out-Same k h =
    let g = forget (h.calls k).conn (h.calls k).id h in
    Same-trans (forget-Same (h.calls k).conn (h.calls k).id h) (
      Same-trans (cancel-Same k g)
        (change_call-Same k (λ call. record call { timer = false }) (cancel k g)))

pub deliver_found-Same :
    (c : ℕ) (o : Option ℕ) (response : Response) (h : Hub) → Same h (deliver_found c o response h)
deliver_found-Same c none response h = Same-refl h
deliver_found-Same c (some k) response h =
    Same-trans (forget-Same c response.id h) (deliver-Same k c response (forget c response.id h))

pub read_message-Same : (c : ℕ) (response : Response) (h : Hub) → Same h (read_message c response h)
unfolding read_message
read_message-Same c response h =
    of_if (Same h) (response.id == 0) (λ _. Same-refl h)
      (λ _. deliver_found-Same c ((h.conns c).pending response.id) response h)
