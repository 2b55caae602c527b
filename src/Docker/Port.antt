-- ===== src/Docker/Port.antt =====
-- The search of findAvailablePort in app/docker.go for the port of a container.
use mini_deploy.Prelude.{
  ℕ, zero, suc, ℤ, pos, ◌+◌, ◌-◌, ◌∙◌, sym, ap, ◌∷◌, ◌≡◌, ◌≤◌, ◌<◌, refl, some, none, Option, arith,
  ◌⊎◌, inl, inr, List,
}
use mini_deploy.Text.{Text}
use mini_deploy.Result.{ok, no_available_port}
use mini_deploy.World.{World, Host, Event, Event.listen, Io, io, pure, answered}
use mini_deploy.Docker.{
  find_available_port, find_deploy_port, port_or, min_deploy_port, max_deploy_port,
}

-- The events behind a search that has asked for `n` ports from `start` on.
abbrev pub asked : ℕ → ℕ → List Event → List Event
asked start zero trace = trace
asked start (suc n) trace = asked (suc start) n (listen start ∷ trace)

-- The answer of the host to a search from `start` on when it comes to the port `n`.
abbrev pub answer_at : Host → List Event → ℕ → ℕ → Option Text
answer_at host trace start n = host.answer (asked start (n - start) trace) (listen n)

-- The port is the first one from `start` on, before `last`, on which the host could listen.
pub record IsFree (host : Host) (trace : List Event) (start last : ℕ) (port : ℤ) : Type 0 where
  pub number : ℕ
  pub is_number : port ≡ pos number
  pub from_start : start ≤ number
  pub to_last : number < last
  pub output : Text
  pub free : answer_at host trace start number ≡ some output
  pub taken : (n : ℕ) → start ≤ n → n < number → answer_at host trace start n ≡ none

at_or_above : (start n : ℕ) → start ≤ n → (start ≡ n) ⊎ (start < n)
at_or_above start n h = ground arith

-- A port behind the first is asked for with one event more.
answer_at-suc :
    (host : Host) (trace : List Event) (start n : ℕ)
    → start < n
    → answer_at host (listen start ∷ trace) (suc start) n ≡ answer_at host trace start n
answer_at-suc host trace start n h =
    let e : suc (n - suc start) ≡ n - start = omega (arith, h) in
    ap (λ (d : ℕ). host.answer (asked start d trace) (listen n)) e

answer_at-start :
    (host : Host) (trace : List Event) (start n : ℕ)
    → start ≡ n
    → answer_at host trace start n ≡ host.answer trace (listen start)
answer_at-start host trace start n h =
    let e : n - start ≡ zero = omega (arith, h) in
    ap (λ (d : ℕ). host.answer (asked start d trace) (listen n)) e
    ∙ ap (λ (m : ℕ). host.answer trace (listen m)) (sym h)

answered-IsFree :
    (host : Host) (trace : List Event) (o : Option Text) (start left : ℕ) (later : Io ℤ) (v : World)
    (port : ℤ)
    → host.answer trace (listen start) ≡ o
    → ((later v).0 ≡ ok port
        → IsFree host (listen start ∷ trace) (suc start) (suc start + left) port)
    → (port_or (answered o no_available_port) start later v).0 ≡ ok port
    → IsFree host trace start (start + suc left) port
unfolding pure
answered-IsFree host trace (some t) start left later v port e k h = record {
  number = start;
  is_number = ground (arith, h);
  from_start = omega arith;
  to_last = omega arith;
  output = t;
  free = answer_at-start host trace start start refl ∙ e;
  taken = λ n below above. absurd (omega (arith, below, above));
}
answered-IsFree host trace none start left later v port e k h =
    let f = k h in
    record {
      number = f.number;
      is_number = f.is_number;
      from_start = omega (arith, f.from_start);
      to_last = omega (arith, f.to_last);
      output = f.output;
      free = sym (answer_at-suc host trace start f.number (omega (arith, f.from_start))) ∙ f.free;
      taken = λ n below above. elim (at_or_above start n below) [
        | inl g ↦ answer_at-start host trace start n g ∙ e
        | inr g ↦ sym (answer_at-suc host trace start n g) ∙ f.taken n g above
      ];
    }

find_available_port-IsFree :
    (start left : ℕ) (w : World) (port : ℤ)
    → (find_available_port start left w).0 ≡ ok port
    → IsFree w.host w.trace start (start + left) port
unfolding find_available_port io
find_available_port-IsFree start zero w port h = cc
find_available_port-IsFree start (suc left) w port h =
    answered-IsFree w.host w.trace (w.host.answer w.trace (listen start)) start left
      (find_available_port (suc start) left) _ port refl
      (λ k. find_available_port-IsFree (suc start) left _ port k) h

-- A port that is found for a container is from 8081 to 8999, and is the first one of them on which the host could
-- listen when the search came to it.
pub find_deploy_port-IsFree :
    (w : World) (port : ℤ)
    → (find_deploy_port w).0 ≡ ok port
    → IsFree w.host w.trace min_deploy_port (suc max_deploy_port) port
unfolding find_deploy_port
find_deploy_port-IsFree w port h = find_available_port-IsFree _ _ w port h

-- A search that does not stop at the first port goes on from the world behind it.
answered-found :
    (o : Option Text) (start : ℕ) (later : Io ℤ) (v : World)
    → (o ≡ none → (port : ℤ) × ((later v).0 ≡ ok port))
    → (port : ℤ) × ((port_or (answered o no_available_port) start later v).0 ≡ ok port)
unfolding pure
answered-found none start later v k = k refl
answered-found (some t) start later v k = (pos start, refl)

-- The host can listen on the port whenever it is asked.
pub record IsIdle (host : Host) (n : ℕ) : Type 0 where
  pub output : List Event → Text
  pub listens : (trace : List Event) → host.answer trace (listen n) ≡ some (output trace)

find_available_port-Idle :
    (start left n : ℕ) (w : World)
    → start ≤ n
    → n < start + left
    → IsIdle w.host n
    → (port : ℤ) × ((find_available_port start left w).0 ≡ ok port)
unfolding find_available_port io
find_available_port-Idle start zero n w h k i = absurd (omega (arith, h, k))
find_available_port-Idle start (suc left) n w h k i =
    answered-found (w.host.answer w.trace (listen start)) start
      (find_available_port (suc start) left) _
      λ e. elim (at_or_above start n h) [
        | inl g ↦ cc (e, g, i.listens w.trace)
        | inr g ↦ find_available_port-Idle (suc start) left n _ g (omega (arith, k)) i
      ]

-- Where the host can listen on one of the ports from 8081 to 8999 whenever it is asked, a port is found.
pub find_deploy_port-Idle :
    (n : ℕ) (w : World)
    → min_deploy_port ≤ n
    → n ≤ max_deploy_port
    → IsIdle w.host n
    → (port : ℤ) × ((find_deploy_port w).0 ≡ ok port)
unfolding find_deploy_port
find_deploy_port-Idle n w h k i = find_available_port-Idle _ _ n w h (omega (arith, k)) i
