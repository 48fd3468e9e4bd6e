-- ===== src/Gateway/Captured.antt =====
-- internal/gateway/server.go: `Run`, the sessions and the model.
use acgc_project.Common.{
  Str, [], ◌∷◌, Bool, false, Option, none, some, if◌then◌else◌, Map, get, ◌≡◌, refl, ap, ◌∙◌, ◌⊎◌,
  inl, inr, str_eq, str_eq_refl, option_split,
}
use acgc_project.Domain.{Floats}
use acgc_project.VectorIndex.{Graphs}
use acgc_project.Session.State.{SessionState}
use acgc_project.Session.Registry.{get_or_create, enqueue_event}
use acgc_project.Session.Opened.{get_or_create_lem}
use acgc_project.Llm.{GenerateResult, generate}
use acgc_project.Gateway.Queues.{Adds, enqueue_event-Adds, compile_prompt-Adds, then-Adds}
use acgc_project.Gateway.{
  Server, RunRequest, RunResponse, is_there, session_id_of, task_id_of, user_event, response_event,
  system_prompt_of, messages_of, select_llm_client, temperature_of, max_tokens_of, find_session,
  prepare, run_request,
}

module _ {fl : Floats} {gs : Graphs fl} where
  find_session-found :
      (s : Server fl) (sid task : Str) (sessions : Map (SessionState gs))
      → (x : SessionState gs) × (get sid (find_session gs s sid task sessions) ≡ some x)
  unfolding find_session
  find_session-found s sid task sessions =
      let r =
        get_or_create gs s.manager (is_there s.embed) s.vectors_order (s.load sid) sid task
          sessions in
      let (_, reads) =
        get_or_create_lem s.manager (is_there s.embed) s.vectors_order (s.load sid) sid task
          sessions in
      (
        r.0,
        reads sid ∙ ap (λ (b : Bool). if b then some r.0 else get sid sessions) (str_eq_refl sid),
      )

  find_session-others :
      (s : Server fl) (sid task : Str) (sessions : Map (SessionState gs)) (j : Str)
      → str_eq sid j ≡ false
      → get j (find_session gs s sid task sessions) ≡ get j sessions
  unfolding find_session
  find_session-others s sid task sessions j n =
      let r =
        get_or_create gs s.manager (is_there s.embed) s.vectors_order (s.load sid) sid task
          sessions in
      let (_, reads) =
        get_or_create_lem s.manager (is_there s.embed) s.vectors_order (s.load sid) sid task
          sessions in
      reads j ∙ ap (λ (b : Bool). if b then some r.0 else get j sessions) n

  prepare-Adds :
      (s : Server fl) (sid task : Str) (req : RunRequest fl) (sessions : Map (SessionState gs))
      → Adds s.manager.channel_buffer sid
          (find_session gs s sid task sessions)
          (prepare gs s sid task req sessions).0
          (user_event s sid task req.user_message ∷ [])
  unfolding prepare
  prepare-Adds s sid task req sessions =
      let there = find_session gs s sid task sessions in
      let event = user_event s sid task req.user_message in
      let asked = (enqueue_event s.manager sid event there).0 in
      let (x, e) = find_session-found s sid task sessions in
      let g = enqueue_event-Adds s sid event there x e in
      then-Adds s.manager.channel_buffer sid there asked _ (event ∷ []) [] g (
        compile_prompt-Adds s sid task req.user_message (system_prompt_of req.conversation_history)
          req.token_budget asked g.is g.left)

  -- What `Run` did: no other session is touched; on an error of the model, called with the compiled prompt
  -- and the settings of the request, `Run` fails and the user's message is all that was offered to the
  -- queue; and on an answer `Run` gives that answer, and it is offered to the queue after the message.
  abbrev pub Ran :
      Server fl
      → RunRequest fl
      → Map (SessionState gs)
      → Map (SessionState gs) × Option (RunResponse fl)
      → Type 0
  Ran s req sessions r =
      let sid = session_id_of s req in
      let task = task_id_of req in
      let there = find_session gs s sid task sessions in
      let asked = user_event s sid task req.user_message in
      let model =
        generate fl s.post (select_llm_client s req.llm_config)
          (messages_of (prepare gs s sid task req sessions).1 req.user_message)
          (temperature_of req.llm_config) (max_tokens_of req.llm_config) in
      ((j : Str) → str_eq sid j ≡ false → get j r.0 ≡ get j sessions)
      × (((model ≡ none) × (r.1 ≡ none) × Adds s.manager.channel_buffer sid there r.0 (asked ∷ []))
          ⊎ ((result : GenerateResult) × (answer : RunResponse fl) × (model ≡ some result)
              × (r.1 ≡ some answer)
              × (answer.llm_response ≡ result.content)
              × Adds s.manager.channel_buffer sid there r.0
                  (asked ∷ response_event s sid task result ∷ [])))

  -- `Run` touches no session but the one of the request. To the queue of that one, as it is found or
  -- opened, it adds the user's message if there is room, and then, if the model answers the compiled
  -- prompt, the answer if there is room, which it also gives to the client; if the model fails, `Run`
  -- does. It leaves the tree and the calls of the store to the worker, which takes no step meanwhile.
  pub run_request-Ran :
      (s : Server fl) (req : RunRequest fl) (sessions : Map (SessionState gs))
      → Ran s req sessions (run_request gs s req sessions)
  unfolding run_request
  run_request-Ran s req sessions =
      let sid = session_id_of s req in
      let task = task_id_of req in
      let there = find_session gs s sid task sessions in
      let ready = (prepare gs s sid task req sessions).0 in
      let asked = user_event s sid task req.user_message in
      let g = prepare-Adds s sid task req sessions in
      let spares = λ (j : Str) (n : str_eq sid j ≡ false).
        g.others j n ∙ find_session-others s sid task sessions j n in
      option_split (Ran s req sessions)
        (generate fl s.post (select_llm_client s req.llm_config)
          (messages_of (prepare gs s sid task req sessions).1 req.user_message)
          (temperature_of req.llm_config) (max_tokens_of req.llm_config))
        (λ e. (spares, inl (e, refl, g)))
        (λ result e.
          let h = enqueue_event-Adds s sid (response_event s sid task result) ready g.is g.left in
          (
            λ j n. h.others j n ∙ spares j n,
            inr (
              result,
              _,
              e,
              refl,
              refl,
              then-Adds s.manager.channel_buffer sid there ready _ (asked ∷ [])
                  (response_event s sid task result ∷ []) g h,
            ),
          ))
