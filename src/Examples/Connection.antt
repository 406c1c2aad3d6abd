-- ===== src/Examples/Connection.antt =====
-- Uses of the theorems on the HTTP client and the raw socket.
use repo_init.Base.{
  ◌≡◌, refl, subst, arith, ◌⊎◌, Bool, true, false, some, List, [], ◌∷◌, ◌++◌, take, Bytes, codes,
}
use repo_init.Base.Int.{pos, negsuc}
use repo_init.Connection.Curl.{
  Setting, is_upload, url, post_fields, post_field_size, http_get, no_body, post, upload,
  write_data, write_function, verbose, follow_location, timeout_ms, connect_timeout_ms,
  ssl_engine_default, ssl_version, Chunk, Curl, IsCurl, Method, get, head, sent_post, put,
}
use repo_init.Connection.Http.{
  Http, http, send_get_request, send_head_request, send_post_request, send_put_request,
}
use repo_init.Connection.Http.Requests.{Asks, IsAnswered, Request, asks_get, puts, run_requests}
use repo_init.Connection.Http.Laws.{requests-IsAnswered}
use repo_init.Utils.ConfigParser.{c_str}
use repo_init.Connection.RawSocket.{
  RawSocket, Opening, bind_failed, no_option, no_interface, no_socket, threw, made, raw_socket,
  destroy,
}
use repo_init.Connection.RawSocket.Laws.{
  raw_socket-descriptors, Use, writes, reads, asks, use_all, moved, taken, total, IsBalanced,
  use_all-IsBalanced,
}

-- A handle that remembers its address, its method, its body and what is to be the body's size.
abbrev PlainHandle : Type 0
PlainHandle = Bytes × Method × Bytes × Bytes

abbrev plain_setopt : Setting → PlainHandle → PlainHandle
plain_setopt (url u) (a, m, b, d) = (u, m, b, d)
plain_setopt (post_fields s) (a, m, b, d) = (a, sent_post, b, s)
plain_setopt (post_field_size n) (a, m, b, d) = (a, m, take n d, d)
plain_setopt http_get (a, m, b, d) = (a, get, b, d)
plain_setopt no_body (a, m, b, d) = (a, head, b, d)
plain_setopt post (a, m, b, d) = (a, sent_post, b, d)
plain_setopt upload (a, m, b, d) = (a, put, b, d)
plain_setopt _ h = h

abbrev is_put : Method → Bool
is_put put = true
is_put _ = false

abbrev hello : Chunk
hello = record { size = 1; nmemb = 5; contents = codes "hello" }

abbrev plain_curl : Curl
plain_curl = record {
  Handle = PlainHandle;
  init = some ([], get, [], []);
  setopt = (λ s h. (plain_setopt s h, true));
  perform = (λ h. (h, record { code = 0; chunks = hello ∷ hello ∷ [] }));
  getinfo = (λ i h. some (pos 200));
  url_of = (λ h. h.0);
  method_of = (λ h. h.1);
  body_of = (λ h. h.2);
  uploading = (λ h. is_put h.1);
}

plain_setopt-is_put :
    (s : Setting) (h : PlainHandle)
    → is_upload s ≡ false
    → is_put h.1 ≡ false
    → is_put (plain_setopt s h).1 ≡ false
plain_setopt-is_put (url u) h kept e = e
plain_setopt-is_put (post_fields u) h kept e = refl
plain_setopt-is_put (post_field_size n) h kept e = e
plain_setopt-is_put http_get h kept e = refl
plain_setopt-is_put no_body h kept e = refl
plain_setopt-is_put post h kept e = refl
plain_setopt-is_put upload h kept e = cc
plain_setopt-is_put write_data h kept e = e
plain_setopt-is_put write_function h kept e = e
plain_setopt-is_put (verbose n) h kept e = e
plain_setopt-is_put (follow_location n) h kept e = e
plain_setopt-is_put (timeout_ms n) h kept e = e
plain_setopt-is_put (connect_timeout_ms n) h kept e = e
plain_setopt-is_put (ssl_engine_default n) h kept e = e
plain_setopt-is_put (ssl_version n) h kept e = e

new_handle : (h : PlainHandle) → some ([], get, [], []) ≡ some h → is_put h.1 ≡ false
new_handle h e =
    let same : ([], get, [], []) ≡ h = ground (arith, e) in
    subst (λ (h : PlainHandle). is_put h.1 ≡ false) same refl

plain_curl-IsCurl : IsCurl plain_curl
plain_curl-IsCurl = record {
  url_set = (λ u h. refl);
  method_get = (λ h. refl);
  method_head = (λ h. refl);
  method_post = (λ h e. refl);
  uploading_init = new_handle;
  uploading_kept = plain_setopt-is_put;
  uploading_get = (λ h. refl);
  uploading_performed = (λ h. refl);
  method_put = (λ h. refl);
  body_set = (λ s n h. refl);
  url_kept = (λ h. (refl, refl, refl, refl, refl));
  body_kept = (λ u h. (refl, refl, refl));
}

-- A client for localhost, with a PUT and a GET behind it.
abbrev new_client : Http plain_curl
new_client = record { curl = ([], get, [], []); buffer = []; host_addr = codes "localhost" }

abbrev old_requests : List Request
old_requests = puts (codes "/old") (codes "old") ∷ asks_get (codes "/old") ∷ []

new_client-http : http plain_curl (codes "localhost") (pos 2000) ≡ some new_client
unfolding http
new_client-http = refl

requests-IsAnswered_example :
    let t = run_requests plain_curl (pos 1023) old_requests new_client in
    let u = c_str (codes "localhost" ++ codes "/a") in
    let answers = IsAnswered plain_curl (pos 1023) (codes "localhost") in
    answers (Asks plain_curl u get) (send_get_request plain_curl (pos 1023) (codes "/a") t)
    × answers (Asks plain_curl u head) (send_head_request plain_curl (pos 1023) (codes "/a") t)
    × (true ≡ true
        → answers
            (λ h. Asks plain_curl u sent_post h × (h.2 ≡ codes "new"))
            (send_post_request plain_curl (pos 1023) (codes "/a") (codes "new") t))
    × answers
        (Asks plain_curl u put)
        (send_put_request plain_curl (pos 1023) (codes "/a") (codes "new") t)
requests-IsAnswered_example =
    requests-IsAnswered plain_curl plain_curl-IsCurl (pos 1023) (codes "localhost") (pos 2000)
      new_client old_requests (codes "/a") (codes "new") new_client-http

abbrev writer : RawSocket
writer = record {
  is_ready = true;
  write_mode = true;
  sock_fd = 5;
  i_face = codes "eth0";
  sll_ifindex = 2;
  device = some (codes "eth0");
  stats = record { sent_bytes = 0; received_bytes = 0; processing_time = 0 };
}

abbrev uses : List Use
uses =
    writes (record { result = pos 60; elapsed = 9 })
    ∷ asks true
    ∷ writes (record { result = negsuc 0; elapsed = 3 })
    ∷ reads (record { result = pos 60; elapsed = 9 })
    ∷ []

use_all-IsBalanced_example :
    IsBalanced writer (use_all uses writer) (total moved uses writer) (total taken uses writer)
use_all-IsBalanced_example = use_all-IsBalanced uses writer

abbrev no_bind : Opening
no_bind = record { ifindex = 2; socket = some 5; bind_ok = false; setsockopt_ok = true }

raw_socket-descriptors_example :
    let r = raw_socket no_bind (codes "eth0") true (2 ∷ []) in
    (r.0 ≡ made writer
      → (r.1 ≡ 5 ∷ 2 ∷ []) × (destroy writer r.1 ≡ 2 ∷ []) × (true ≡ true) × (true ≡ true))
    × ((r.0 ≡ threw no_interface) ⊎ (r.0 ≡ threw no_socket) → r.1 ≡ 2 ∷ [])
    × (no_bind.socket ≡ some 5
        → (r.0 ≡ threw bind_failed) ⊎ (r.0 ≡ threw no_option)
        → r.1 ≡ 5 ∷ 2 ∷ [])
raw_socket-descriptors_example =
    raw_socket-descriptors no_bind (codes "eth0") true (2 ∷ []) writer 5
