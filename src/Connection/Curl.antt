-- ===== src/Connection/Curl.antt =====
-- libcurl as src/connection/Http.cpp uses it.
use repo_init.Base.{false, true, ℕ, ◌≡◌, Bool, Option, some, List, take, Bytes}
use repo_init.Base.Int.{ℤ}

-- The options that are set. A pointer is what it points to when a transfer is performed, which lasts no
-- longer than the call that has set it. HTTPGET, NOBODY, POST and
-- UPLOAD are set to 1.
pub data Setting : Type 0 where
  url post_fields : Bytes → Setting
  post_field_size : ℕ → Setting
  http_get no_body post upload write_data write_function : Setting
  verbose follow_location timeout_ms connect_timeout_ms ssl_engine_default ssl_version : ℤ → Setting

abbrev pub is_upload : Setting → Bool
is_upload upload = true
is_upload _ = false

pub data Method : Type 0 where
  get head sent_post put : Method

-- What `curl_easy_getinfo` is asked for.
pub data Info : Type 0 where
  response_code size_upload size_download header_size request_size speed_upload speed_download
        connect_time name_lookup_time pre_transfer_time redirect_time start_transfer_time
        total_time :
      Info

-- A call of the write function: the size of an element, their number, and the bytes.
pub record Chunk : Type 0 where
  pub size : ℕ
  pub nmemb : ℕ
  pub contents : Bytes

-- What a transfer gives: its code, 0 for CURLE_OK, and the calls of the write function.
pub record Transfer : Type 0 where
  pub code : ℕ
  pub chunks : List Chunk

-- A handle with its operations; `setopt` says whether it gives CURLE_OK, `getinfo` is `none` if it does
-- not. `url_of`, `method_of` and `body_of` are the request that `perform` would make, and `uploading` says
-- that UPLOAD is 1.
pub record Curl : Type 1 where
  pub Handle : Type 0
  pub init : Option Handle
  pub setopt : Setting → Handle → Handle × Bool
  pub perform : Handle → Handle × Transfer
  pub getinfo : Info → Handle → Option ℤ
  pub url_of : Handle → Bytes
  pub method_of : Handle → Method
  pub body_of : Handle → Bytes
  pub uploading : Handle → Bool

-- What its documentation says of an option that is set: the last one decides, HTTPGET, NOBODY, POST and
-- UPLOAD choose the method, POST where UPLOAD is 0, POSTFIELDS with its size is the body of a POST, and the
-- other options leave these alone. UPLOAD is 0 on a new handle, HTTPGET sets it to 0, and neither another
-- option than UPLOAD nor a transfer sets it to 1.
pub record IsCurl (c : Curl) : Type 0 where
  pub url_set : (u : Bytes) (h : c.Handle) → c.url_of (c.setopt (url u) h).0 ≡ u
  pub method_get : (h : c.Handle) → c.method_of (c.setopt http_get h).0 ≡ get
  pub method_head : (h : c.Handle) → c.method_of (c.setopt no_body h).0 ≡ head
  pub method_post :
      (h : c.Handle) → c.uploading h ≡ false → c.method_of (c.setopt post h).0 ≡ sent_post
  pub uploading_init : (h : c.Handle) → c.init ≡ some h → c.uploading h ≡ false
  pub uploading_kept :
      (s : Setting) (h : c.Handle)
      → is_upload s ≡ false
      → c.uploading h ≡ false
      → c.uploading (c.setopt s h).0 ≡ false
  pub uploading_get : (h : c.Handle) → c.uploading (c.setopt http_get h).0 ≡ false
  pub uploading_performed : (h : c.Handle) → c.uploading (c.perform h).0 ≡ c.uploading h
  pub method_put : (h : c.Handle) → c.method_of (c.setopt upload h).0 ≡ put
  pub body_set :
      (s : Bytes) (n : ℕ) (h : c.Handle)
      → c.body_of (c.setopt (post_field_size n) (c.setopt (post_fields s) h).0).0 ≡ take n s
  pub url_kept :
      (h : c.Handle)
      → (c.url_of (c.setopt write_data h).0 ≡ c.url_of h)
        × (c.url_of (c.setopt http_get h).0 ≡ c.url_of h)
        × (c.url_of (c.setopt no_body h).0 ≡ c.url_of h)
        × (c.url_of (c.setopt post h).0 ≡ c.url_of h)
        × (c.url_of (c.setopt upload h).0 ≡ c.url_of h)
  pub body_kept :
      (u : Bytes) (h : c.Handle)
      → (c.body_of (c.setopt (url u) h).0 ≡ c.body_of h)
        × (c.body_of (c.setopt write_data h).0 ≡ c.body_of h)
        × (c.body_of (c.setopt post h).0 ≡ c.body_of h)
