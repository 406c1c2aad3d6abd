-- ===== src/ZeroMq/Stats.antt =====
-- src/zeromq/ZeroMQStats.cpp: what is counted of each request.
use repo_init.Base.{
  ap, ◌≤◌, [], ℕ, ◌+◌, ◌≡◌, Bool, true, false, List, ◌∷◌, arith, if◌then◌else◌, length, Bytes,
}
use repo_init.Base.Doubles.{exact_max, to_double, to_double-exact}
use repo_init.Metrics.Prometheus.{Prometheus, IsPrometheus}
use repo_init.Metrics.BaseStats.{
  BaseServerStats, init_base_stats, consume_base_stats, IsConsistent, init_base_stats-IsConsistent,
  consume_base_stats-IsConsistent,
}

pub record ZeroMqStats (p : Prometheus) : Type 0 where
  pub base : BaseServerStats p
  pub succeeded_command_parts : p.Counter
  pub failed_command_parts : p.Counter
  pub total_command_parts : p.Counter
  pub total_upload_bytes : p.Counter
  pub total_download_bytes : p.Counter

-- ZeroMQServerStats; `processing_time` is the difference of its two time points.
pub record ZeroMqServerStats : Type 0 where
  pub is_successful : Bool
  pub processing_time : ℕ

module _ (p : Prometheus) where
  open p use {new_counter, counter_value, increment}

  -- The constructor, with a registry.
  unfoldable pub init_zeromq_stats : ZeroMqStats p
  init_zeromq_stats = record {
    base = init_base_stats p;
    succeeded_command_parts = new_counter;
    failed_command_parts = new_counter;
    total_command_parts = new_counter;
    total_upload_bytes = new_counter;
    total_download_bytes = new_counter;
  }

  -- The loop over the received parts.
  unfoldable pub consume_received : Bool → List Bytes → ZeroMqStats p → ZeroMqStats p
  consume_received successful [] t = t
  consume_received successful (entry ∷ entries) t =
      let t₁ = record t {
        total_command_parts = increment 1 t.total_command_parts;
        total_download_bytes = increment (to_double (length entry)) t.total_download_bytes;
      } in
      consume_received successful entries (
        if successful
        then record t₁ { succeeded_command_parts = increment 1 t₁.succeeded_command_parts }
        else record t₁ { failed_command_parts = increment 1 t₁.failed_command_parts })

  -- The loop over the sent parts.
  unfoldable pub consume_sent : List Bytes → ZeroMqStats p → ZeroMqStats p
  consume_sent [] t = t
  consume_sent (entry ∷ entries) t =
      consume_sent entries (record t {
        total_upload_bytes = increment (to_double (length entry)) t.total_upload_bytes;
      })

  unfoldable pub consume_stats :
      ZeroMqStats p → List Bytes → List Bytes → ZeroMqServerStats → ZeroMqStats p
  unfolding consume_received consume_sent
  consume_stats t recv_msgs send_msgs stat =
      let t₁ = record t {
        base =
            consume_base_stats p t.base (if stat.is_successful then 1 else 0)
              (if stat.is_successful then 0 else 1) (to_double stat.processing_time);
      } in
      consume_sent send_msgs (consume_received stat.is_successful recv_msgs t₁)

  abbrev pub total_size : List Bytes → ℕ
  total_size [] = 0
  total_size (entry ∷ entries) = length entry + total_size entries

  -- The counters of parts agree, as those of commands do.
  pub record IsZeroMqConsistent (t : ZeroMqStats p) : Type 0 where
    pub base_consistent : IsConsistent p t.base
    pub parts :
        counter_value t.total_command_parts
        ≡ counter_value t.succeeded_command_parts + counter_value t.failed_command_parts

  module _ (laws : IsPrometheus p) where
    pub init_zeromq_stats-IsZeroMqConsistent : IsZeroMqConsistent init_zeromq_stats
    unfolding init_zeromq_stats
    init_zeromq_stats-IsZeroMqConsistent = record {
      base_consistent = init_base_stats-IsConsistent p laws;
      parts = omega (arith, laws.new_counter_value);
    }

    -- What the loop over the received parts adds, and what it leaves.
    record Received (successful : Bool) (entries : List Bytes) (t t' : ZeroMqStats p) : Type 0 where
      same_base : t'.base ≡ t.base
      same_upload : t'.total_upload_bytes ≡ t.total_upload_bytes
      all_parts :
          counter_value t'.total_command_parts
          ≡ counter_value t.total_command_parts + length entries
      good_parts :
          counter_value t'.succeeded_command_parts
          ≡ counter_value t.succeeded_command_parts + (if successful then length entries else 0)
      bad_parts :
          counter_value t'.failed_command_parts
          ≡ counter_value t.failed_command_parts + (if successful then 0 else length entries)
      downloaded :
          counter_value t'.total_download_bytes
          ≡ counter_value t.total_download_bytes + total_size entries

    -- Doubles hold the counters with what some parts add, and all numbers below them.
    record Room (entries : List Bytes) (t : ZeroMqStats p) : Type 0 where
      for_all : counter_value t.total_command_parts + length entries ≤ exact_max
      for_good : counter_value t.succeeded_command_parts + length entries ≤ exact_max
      for_bad : counter_value t.failed_command_parts + length entries ≤ exact_max
      for_download : counter_value t.total_download_bytes + total_size entries ≤ exact_max

    consume_received-Received :
        (successful : Bool) (entries : List Bytes) (t : ZeroMqStats p)
        → Room entries t
        → Received successful entries t (consume_received successful entries t)
    unfolding consume_received
    consume_received-Received true [] t h = ground arith
    consume_received-Received false [] t h = ground arith
    consume_received-Received true (entry ∷ entries) t h =
        let size = to_double-exact (length entry) (omega (arith, h.for_download)) in
        let all = laws.increment_value 1 t.total_command_parts (omega (arith, h.for_all)) in
        let one = laws.increment_value 1 t.succeeded_command_parts (omega (arith, h.for_good)) in
        let down =
          laws.increment_value (length entry) t.total_download_bytes
            (omega (arith, h.for_download)) in
        let room : Room entries _ = record {
          for_all = omega (arith, h.for_all, all);
          for_good = omega (arith, h.for_good, one);
          for_bad = omega (arith, h.for_bad);
          for_download = rw size (omega (arith, h.for_download, down));
        } in
        let r = consume_received-Received true entries _ room in
        record {
          same_base = r.same_base;
          same_upload = r.same_upload;
          all_parts = omega (arith, r.all_parts, all);
          good_parts = omega (arith, r.good_parts, one);
          bad_parts = r.bad_parts;
          downloaded = omega (
            arith,
            r.downloaded,
            ap (λ n. counter_value (increment n t.total_download_bytes)) size,
            down,
          );
        }
    consume_received-Received false (entry ∷ entries) t h =
        let size = to_double-exact (length entry) (omega (arith, h.for_download)) in
        let all = laws.increment_value 1 t.total_command_parts (omega (arith, h.for_all)) in
        let one = laws.increment_value 1 t.failed_command_parts (omega (arith, h.for_bad)) in
        let down =
          laws.increment_value (length entry) t.total_download_bytes
            (omega (arith, h.for_download)) in
        let room : Room entries _ = record {
          for_all = omega (arith, h.for_all, all);
          for_good = omega (arith, h.for_good);
          for_bad = omega (arith, h.for_bad, one);
          for_download = rw size (omega (arith, h.for_download, down));
        } in
        let r = consume_received-Received false entries _ room in
        record {
          same_base = r.same_base;
          same_upload = r.same_upload;
          all_parts = omega (arith, r.all_parts, all);
          good_parts = r.good_parts;
          bad_parts = omega (arith, r.bad_parts, one);
          downloaded = omega (
            arith,
            r.downloaded,
            ap (λ n. counter_value (increment n t.total_download_bytes)) size,
            down,
          );
        }

    record Sent (entries : List Bytes) (t t' : ZeroMqStats p) : Type 0 where
      kept_base : t'.base ≡ t.base
      kept_total : t'.total_command_parts ≡ t.total_command_parts
      kept_good : t'.succeeded_command_parts ≡ t.succeeded_command_parts
      kept_bad : t'.failed_command_parts ≡ t.failed_command_parts
      kept_download : t'.total_download_bytes ≡ t.total_download_bytes
      uploaded :
          counter_value t'.total_upload_bytes
          ≡ counter_value t.total_upload_bytes + total_size entries

    consume_sent-Sent :
        (entries : List Bytes) (t : ZeroMqStats p)
        → counter_value t.total_upload_bytes + total_size entries ≤ exact_max
        → Sent entries t (consume_sent entries t)
    unfolding consume_sent
    consume_sent-Sent [] t h = ground arith
    consume_sent-Sent (entry ∷ entries) t h =
        let size = to_double-exact (length entry) (omega (arith, h)) in
        let up = laws.increment_value (length entry) t.total_upload_bytes (omega (arith, h)) in
        let r = consume_sent-Sent entries _ (rw size (omega (arith, h, up))) in
        record {
          kept_base = r.kept_base;
          kept_total = r.kept_total;
          kept_good = r.kept_good;
          kept_bad = r.kept_bad;
          kept_download = r.kept_download;
          uploaded = omega (
            arith,
            r.uploaded,
            ap (λ n. counter_value (increment n t.total_upload_bytes)) size,
            up,
          );
        }

    -- Consuming a request keeps the counters consistent, counts each received part once, as succeeded
    -- or as failed like the request, and adds the sizes of all parts to the bytes, as long as doubles hold
    -- the counters then and all numbers below them.
    pub consume_stats-IsZeroMqConsistent :
        (t : ZeroMqStats p) (recv_msgs send_msgs : List Bytes) (stat : ZeroMqServerStats)
        → counter_value t.base.total_command + 1 ≤ exact_max
        → counter_value t.total_command_parts + length recv_msgs ≤ exact_max
        → counter_value t.total_download_bytes + total_size recv_msgs ≤ exact_max
        → counter_value t.total_upload_bytes + total_size send_msgs ≤ exact_max
        → IsZeroMqConsistent t
        → let t' = consume_stats t recv_msgs send_msgs stat in
          IsZeroMqConsistent t'
          × (counter_value t'.succeeded_command_parts
              ≡ counter_value t.succeeded_command_parts
                + (if stat.is_successful then length recv_msgs else 0))
          × (counter_value t'.total_download_bytes
              ≡ counter_value t.total_download_bytes + total_size recv_msgs)
          × (counter_value t'.total_upload_bytes
              ≡ counter_value t.total_upload_bytes + total_size send_msgs)
    unfolding consume_stats
    consume_stats-IsZeroMqConsistent t recv_msgs send_msgs stat commands parts download upload v =
        let good = if stat.is_successful then 1 else 0 in
        let bad = if stat.is_successful then 0 else 1 in
        let t₁ : ZeroMqStats p = record t {
          base = consume_base_stats p t.base good bad (to_double stat.processing_time);
        } in
        let t₂ = consume_received stat.is_successful recv_msgs t₁ in
        let room : Room recv_msgs t₁ = record {
          for_all = parts;
          for_good = omega (arith, parts, v.parts);
          for_bad = omega (arith, parts, v.parts);
          for_download = download;
        } in
        let r = consume_received-Received stat.is_successful recv_msgs t₁ room in
        let q = consume_sent-Sent send_msgs t₂ (rw r.same_upload upload) in
        let fits : counter_value t.base.total_command + (good + bad) ≤ exact_max =
          ground (arith, commands) in
        let base =
          consume_base_stats-IsConsistent p laws t.base good bad (to_double stat.processing_time)
            fits v.base_consistent in
        (
          record {
            base_consistent = rw (q.kept_base, r.same_base) base;
            parts =
                rw (q.kept_total, q.kept_good, q.kept_bad)
                  (ground (arith, r.all_parts, r.good_parts, r.bad_parts, v.parts));
          },
          rw q.kept_good r.good_parts,
          rw q.kept_download r.downloaded,
          rw r.same_upload at q.uploaded,
        )
