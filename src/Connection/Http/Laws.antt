-- ===== src/Connection/Http/Laws.antt =====
-- What a request of the HTTP client asks for and gives.
use repo_init.Base.{
  Bool, true, subst, Option-cases, inl, inr, false, ◌≡◌, refl, ◌∙◌, some, List, [], ◌∷◌, ◌++◌,
  arith, length, All, Bytes,
}
use repo_init.Base.Int.{ℤ, pos}
use repo_init.Connection.Curl.{
  Setting, is_upload, url, post_fields, post_field_size, http_get, no_body, post, upload,
  write_data, verbose, follow_location, timeout_ms, connect_timeout_ms, ssl_engine_default,
  ssl_version, write_function, Curl, IsCurl, get, head, sent_post, put,
}
use repo_init.Utils.ConfigParser.{c_str}
use repo_init.Connection.Http.{
  http, set_all, Http, set_common_fields, set_payload_fields, perform_request, send_get_request,
  send_head_request, send_post_request, send_put_request,
}
use repo_init.Connection.Http.Requests.{
  Asks, IsAnswered, perform_request-IsAnswered, Request, asks_get, asks_head, posts, puts,
  run_request, run_requests, may_post, may_post-next, take-all,
}

module _ (c : Curl) where
  module _ (laws : IsCurl c) where
    common-url :
        (u : Bytes) (t : Http c)
        → (c.url_of (set_common_fields c u http_get t).curl ≡ c_str u)
          × (c.url_of (set_common_fields c u no_body t).curl ≡ c_str u)
    unfolding set_common_fields
    common-url u t =
        let h = (c.setopt (url (c_str u)) t.curl).0 in
        let h' = (c.setopt write_data h).0 in
        let kept = (laws.url_kept h).0 ∙ laws.url_set (c_str u) t.curl in
        ((laws.url_kept h').1 ∙ kept, (laws.url_kept h').2 ∙ kept)

    payload-url :
        (u payload : Bytes) (t : Http c)
        → (c.url_of (set_payload_fields c u post payload t).curl ≡ c_str u)
          × (c.url_of (set_payload_fields c u upload payload t).curl ≡ c_str u)
    unfolding set_payload_fields
    payload-url u payload t =
        let sized =
          (c.setopt (post_field_size (length payload))
            (c.setopt (post_fields payload) t.curl).0).0 in
        let h = (c.setopt (url (c_str u)) sized).0 in
        let h' = (c.setopt write_data h).0 in
        let kept = (laws.url_kept h).0 ∙ laws.url_set (c_str u) sized in
        ((laws.url_kept h').3 ∙ kept, (laws.url_kept h').4 ∙ kept)

    payload-body :
        (u payload : Bytes) (t : Http c)
        → c.body_of (set_payload_fields c u post payload t).curl ≡ payload
    unfolding set_payload_fields
    payload-body u payload t =
        let sized =
          (c.setopt (post_field_size (length payload))
            (c.setopt (post_fields payload) t.curl).0).0 in
        let h = (c.setopt (url (c_str u)) sized).0 in
        let h' = (c.setopt write_data h).0 in
        (laws.body_kept u h').2
        ∙ ((laws.body_kept u h).1
            ∙ ((laws.body_kept (c_str u) sized).0
                ∙ (laws.body_set payload (length payload) t.curl ∙ take-all payload)))

    set_all-uploading :
        (ss : List Setting) (h : c.Handle)
        → All (λ s. is_upload s ≡ false) ss
        → c.uploading h ≡ false
        → c.uploading (set_all c ss h) ≡ false
    set_all-uploading [] h plain e = e
    set_all-uploading (s ∷ ss) h plain e =
        set_all-uploading ss (c.setopt s h).0 plain.1 (laws.uploading_kept s h plain.0 e)

    http-uploading :
        (addr : Bytes) (timeout : ℤ) (t : Http c)
        → http c addr timeout ≡ some t
        → (c.uploading t.curl ≡ false) × (t.host_addr ≡ addr)
    unfolding http
    http-uploading addr timeout t e = elim (Option-cases c.init) [
      | inl n ↦ ground (arith, n, e)
      | inr (h, n) ↦
          let options =
            verbose (pos 0)
            ∷ follow_location (pos 1)
            ∷ timeout_ms timeout
            ∷ connect_timeout_ms timeout
            ∷ write_function
            ∷ ssl_engine_default (pos 1)
            ∷ ssl_version (pos 6)
            ∷ [] in
          let new : Http c = record { curl = set_all c options h; buffer = []; host_addr = addr } in
          let same : new ≡ t = ground (arith, n, e) in
          subst (λ (t : Http c). (c.uploading t.curl ≡ false) × (t.host_addr ≡ addr)) same
            (
              set_all-uploading options h (refl, (refl, (refl, (refl, (refl, (refl, (refl, tt)))))))
                  (laws.uploading_init h n),
              refl,
            )
    ]

    -- No request but a PUT sets UPLOAD, and a GET takes it back.
    run_request-uploading :
        (xxx_max : ℤ) (r : Request) (t : Http c) (b : Bool)
        → (b ≡ true → c.uploading t.curl ≡ false)
        → may_post b (r ∷ []) ≡ true
        → c.uploading (run_request c xxx_max r t).0.curl ≡ false
    unfolding send_get_request send_head_request send_post_request send_put_request perform_request
        set_common_fields set_payload_fields
    run_request-uploading xxx_max (asks_get index) t b h e =
        laws.uploading_performed _ ∙ laws.uploading_get _
    run_request-uploading xxx_max (asks_head index) t b h e =
        laws.uploading_performed _
        ∙ set_all-uploading (url (c_str (t.host_addr ++ index)) ∷ write_data ∷ no_body ∷ []) t.curl
            (refl, (refl, (refl, tt))) (h e)
    run_request-uploading xxx_max (posts index payload) t b h e =
        laws.uploading_performed _
        ∙ set_all-uploading
            (post_fields payload
              ∷ post_field_size (length payload)
              ∷ url (c_str (t.host_addr ++ index))
              ∷ write_data
              ∷ post
              ∷ [])
            t.curl (refl, (refl, (refl, (refl, (refl, tt))))) (h e)
    run_request-uploading xxx_max (puts index payload) t b h e = cc

    run_requests-uploading :
        (xxx_max : ℤ) (rs : List Request) (t : Http c) (b : Bool)
        → (b ≡ true → c.uploading t.curl ≡ false)
        → may_post b rs ≡ true
        → c.uploading (run_requests c xxx_max rs t).curl ≡ false
    run_requests-uploading xxx_max [] t b h e = h e
    run_requests-uploading xxx_max (r ∷ rs) t b h e =
        run_requests-uploading xxx_max rs (run_request c xxx_max r t).0 (may_post b (r ∷ []))
          (run_request-uploading xxx_max r t b h) (may_post-next b r rs ∙ e)

    request-IsAnswered :
        (xxx_max : ℤ) (index payload : Bytes) (t : Http c)
        → let u = c_str (t.host_addr ++ index) in
          let answers = IsAnswered c xxx_max t.host_addr in
          answers (Asks c u get) (send_get_request c xxx_max index t)
          × answers (Asks c u head) (send_head_request c xxx_max index t)
          × (c.uploading t.curl ≡ false
              → answers
                  (λ h. Asks c u sent_post h × (c.body_of h ≡ payload))
                  (send_post_request c xxx_max index payload t))
          × answers (Asks c u put) (send_put_request c xxx_max index payload t)
    unfolding send_get_request send_head_request send_post_request send_put_request
        set_common_fields set_payload_fields
    request-IsAnswered xxx_max index payload t =
        let u = t.host_addr ++ index in
        (
          perform_request-IsAnswered c xxx_max (Asks c (c_str u) get)
              (set_common_fields c u http_get t) refl ((common-url u t).0, laws.method_get _),
          perform_request-IsAnswered c xxx_max (Asks c (c_str u) head)
              (set_common_fields c u no_body t) refl ((common-url u t).1, laws.method_head _),
          (λ no_put.
              perform_request-IsAnswered c xxx_max
                (λ h. Asks c (c_str u) sent_post h × (c.body_of h ≡ payload))
                (set_payload_fields c u post payload t) refl
                (
                  (
                    (payload-url u payload t).0,
                    laws.method_post _ (
                        set_all-uploading
                          (post_fields payload
                            ∷ post_field_size (length payload)
                            ∷ url (c_str u)
                            ∷ write_data
                            ∷ [])
                          t.curl (refl, (refl, (refl, (refl, tt)))) no_put),
                  ),
                  payload-body u payload t,
                )),
          perform_request-IsAnswered c xxx_max (Asks c (c_str u) put)
              (set_payload_fields c u upload payload t) refl
              ((payload-url u payload t).1, laws.method_put _),
        )

    run_requests-host :
        (xxx_max : ℤ) (rs : List Request) (t : Http c)
        → (run_requests c xxx_max rs t).host_addr ≡ t.host_addr
    unfolding send_get_request send_head_request send_post_request send_put_request perform_request
        set_common_fields set_payload_fields
    run_requests-host xxx_max [] t = refl
    run_requests-host xxx_max (asks_get index ∷ rs) t = run_requests-host xxx_max rs _
    run_requests-host xxx_max (asks_head index ∷ rs) t = run_requests-host xxx_max rs _
    run_requests-host xxx_max (posts index payload ∷ rs) t = run_requests-host xxx_max rs _
    run_requests-host xxx_max (puts index payload ∷ rs) t = run_requests-host xxx_max rs _

    -- On a client for an address with any requests before it, a GET, a HEAD, a PUT and, if there has been no
    -- PUT since the last GET, a POST asks for the address with the index behind it, up to its first null
    -- byte, and by its own method, a POST with the payload as its body, and gives the data that its
    -- transfer has written and no other; the status is libcurl's if the code is CURLE_OK and `xxx_max`
    -- otherwise.
    pub requests-IsAnswered :
        (xxx_max : ℤ) (addr : Bytes) (timeout : ℤ) (t₀ : Http c) (rs : List Request)
        (index payload : Bytes)
        → http c addr timeout ≡ some t₀
        → let t = run_requests c xxx_max rs t₀ in
          let u = c_str (addr ++ index) in
          let answers = IsAnswered c xxx_max addr in
          answers (Asks c u get) (send_get_request c xxx_max index t)
          × answers (Asks c u head) (send_head_request c xxx_max index t)
          × (may_post true rs ≡ true
              → answers
                  (λ h. Asks c u sent_post h × (c.body_of h ≡ payload))
                  (send_post_request c xxx_max index payload t))
          × answers (Asks c u put) (send_put_request c xxx_max index payload t)
    requests-IsAnswered xxx_max addr timeout t₀ rs index payload e =
        let t = run_requests c xxx_max rs t₀ in
        let made = http-uploading addr timeout t₀ e in
        let here = request-IsAnswered xxx_max index payload t in
        let host = run_requests-host xxx_max rs t₀ ∙ made.1 in
        subst
          (λ a.
            let u = c_str (a ++ index) in
            let answers = IsAnswered c xxx_max a in
            answers (Asks c u get) (send_get_request c xxx_max index t)
            × answers (Asks c u head) (send_head_request c xxx_max index t)
            × (may_post true rs ≡ true
                → answers (λ h. Asks c u sent_post h × (c.body_of h ≡ payload))
                    (send_post_request c xxx_max index payload t))
            × answers (Asks c u put) (send_put_request c xxx_max index payload t))
          host
          (
            here.0,
            here.1,
            (λ allowed. here.2 (run_requests-uploading xxx_max rs t₀ true (λ b. made.0) allowed)),
            here.3,
          )
