-- ===== src/Connection/Http/Requests.antt =====
-- Requests of the HTTP client of src/connection/Http.cpp: what each asks for, and what is given back.
use repo_init.Base.{
  Bool, true, false, ◌*◌, ◌%◌, ◌<◌, ◌≡◌, refl, sym, ap, ◌∙◌, ◌≢◌, none, some, List, [], ◌∷◌, ◌++◌,
  append-nil, append_assoc, arith, length, take, All, Bytes, size_mod,
}
use repo_init.Base.Int.{ℤ}
use repo_init.Connection.Curl.{response_code, Chunk, Curl, Method}
use repo_init.Connection.Http.{
  Reply, Http, write_data_callback, write_chunks, perform_request, send_get_request,
  send_head_request, send_post_request, send_put_request, value_or,
}

-- The callback gets all the bytes that its numbers say.
abbrev pub IsChunk : Chunk → Type 0
IsChunk k = (k.size * k.nmemb ≡ length k.contents) × (length k.contents < size_mod)

abbrev pub contents_of : List Chunk → Bytes
contents_of [] = []
contents_of (k ∷ ks) = k.contents ++ contents_of ks

pub take-all : (s : Bytes) → take (length s) s ≡ s
take-all [] = refl
take-all (x ∷ s) = ap (◌∷◌ x) (take-all s)

-- A call of the write function appends its bytes and gives their number, which libcurl takes as
-- success; without a string it takes nothing.
pub write_data_callback-appends :
    (k : Chunk) (s : Bytes)
    → IsChunk k
    → (write_data_callback k (some s) ≡ (some (s ++ k.contents), k.size * k.nmemb))
      × (write_data_callback k none ≡ (none, 0))
unfolding write_data_callback
write_data_callback-appends k s h =
    let small : k.size * k.nmemb % size_mod ≡ length k.contents = omega (arith, h.0, h.1) in
    (rw (small, take-all k.contents, h.0) refl, refl)

write_chunks-contents_of :
    (ks : List Chunk) (s : Bytes) → All IsChunk ks → write_chunks ks s ≡ s ++ contents_of ks
write_chunks-contents_of [] s h = sym (append-nil s)
write_chunks-contents_of (k ∷ ks) s h =
    rw
      (
        write_chunks,
        (write_data_callback-appends k s h.0).0,
        write_chunks-contents_of ks (s ++ k.contents) h.1,
      )
      (append_assoc s k.contents (contents_of ks))

-- The requests of a client.
pub data Request : Type 0 where
  asks_get asks_head : Bytes → Request
  posts puts : Bytes → Bytes → Request

-- Whether there has been no PUT since the last GET.
abbrev pub may_post : Bool → List Request → Bool
may_post b [] = b
may_post b (asks_get index ∷ rs) = may_post true rs
may_post b (asks_head index ∷ rs) = may_post b rs
may_post b (posts index payload ∷ rs) = may_post b rs
may_post b (puts index payload ∷ rs) = may_post false rs

pub may_post-next :
    (b : Bool) (r : Request) (rs : List Request)
    → may_post (may_post b (r ∷ [])) rs ≡ may_post b (r ∷ rs)
may_post-next b (asks_get index) rs = refl
may_post-next b (asks_head index) rs = refl
may_post-next b (posts index payload) rs = refl
may_post-next b (puts index payload) rs = refl

module _ (c : Curl) where
  -- What a transfer asks for.
  abbrev pub Asks : Bytes → Method → c.Handle → Type 0
  Asks u m h = (c.url_of h ≡ u) × (c.method_of h ≡ m)

  -- A request: the handle that the transfer is performed with asks for what it should, and the reply
  -- has the data and the status of that transfer alone, a status of `xxx_max` if it fails.
  pub record IsAnswered (xxx_max : ℤ) (host : Bytes) (IsAsked : c.Handle → Type 0)
      (r : Http c × Reply) : Type 0 where
    pub handle : c.Handle
    pub asked : IsAsked handle
    pub after : r.0.curl ≡ (c.perform handle).0
    pub code : r.1.code ≡ (c.perform handle).1.code
    pub status :
        (r.1.code ≡ 0 → r.1.status_code ≡ value_or xxx_max (c.getinfo response_code r.0.curl))
        × (r.1.code ≢ 0 → r.1.status_code ≡ xxx_max)
    pub received :
        All IsChunk (c.perform handle).1.chunks
        → r.1.received_data ≡ contents_of (c.perform handle).1.chunks
    pub same_host : r.0.host_addr ≡ host

  pub perform_request-IsAnswered :
      (xxx_max : ℤ) (IsAsked : c.Handle → Type 0) (t : Http c)
      → t.buffer ≡ []
      → IsAsked t.curl
      → IsAnswered xxx_max t.host_addr IsAsked (perform_request c xxx_max t)
  unfolding perform_request
  perform_request-IsAnswered xxx_max IsAsked t hb asked =
      let ks = (c.perform t.curl).1.chunks in
      record {
        handle = t.curl;
        asked = asked;
        after = refl;
        code = refl;
        status = ground arith;
        received = (λ h. write_chunks-contents_of ks t.buffer h ∙ ap (λ s. s ++ contents_of ks) hb);
        same_host = refl;
      }

  abbrev pub run_request : ℤ → Request → Http c → Http c × Reply
  run_request xxx_max (asks_get index) t = send_get_request c xxx_max index t
  run_request xxx_max (asks_head index) t = send_head_request c xxx_max index t
  run_request xxx_max (posts index payload) t = send_post_request c xxx_max index payload t
  run_request xxx_max (puts index payload) t = send_put_request c xxx_max index payload t

  abbrev pub run_requests : ℤ → List Request → Http c → Http c
  run_requests xxx_max [] t = t
  run_requests xxx_max (r ∷ rs) t = run_requests xxx_max rs (run_request xxx_max r t).0
