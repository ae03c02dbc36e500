-- ===== src/Client/Enqueue/Rows.antt =====
-- The jobs of a batch, the messages sent for them, the server's results and what the caller gets,
-- one row for each job.
use sepp_py.Common.{
  ◌==◌, ==_iff, List, [], map, length, length-map, Result, ok, traverse, ◌≡◌, ◌≢◌, refl, ap, sym,
  ◌∙◌, inl, inr, Bool-cases, Result-cases,
}
use sepp_py.Types.Requests.{EnqueueRequest, EnqueueAck}
use sepp_py.Wire.Messages.{
  PbEnqueueRequest, PbEnqueueResponse, PbJobResult, PbEnqueueAtomicResponse,
}
use sepp_py.Errors.Exceptions.{Raised}
use sepp_py.Convert.Outgoing.{enqueue_request_to_pb}
use sepp_py.Convert.Rejection.{enqueue_ack_from_pb, job_validation_error_from_pb}
use sepp_py.Client.Env.{Env}
use sepp_py.Client.Monad.{value-injective}
use sepp_py.Client.Policy.{Client, World}
use sepp_py.Client.Enqueue.{
  Outcome, job_result_from_pb, transmit, read_batch, enqueue_batch, read_atomic, enqueue_atomic,
}
use sepp_py.Client.Enqueue.Traced.{IsSent, traced}
use sepp_py.Client.Enqueue.Exchange.{Rows, Rows-map, Rows-traverse, traverse-ok, send_jobs-Exchange}

read_batch-ok :
    (env : Env) (sent : List PbEnqueueRequest) (results : List PbJobResult) (w : World env)
    {outs : List Outcome} {w' : World env}
    → read_batch env sent results w ≡ (ok outs, w')
    → (length results ≡ length sent)
      × (traverse (job_result_from_pb env.runtime) results ≡ ok outs)
      × (w ≡ w')
unfolding read_batch
read_batch-ok env sent results w h = elim (Bool-cases (length results == length sent)) [
  | inr e ↦ cc (rw e at h)
  | inl e ↦
      let h' = rw e at h in
      (
        (==_iff _ _).0 e,
        ap (λ (o : Result Raised (List Outcome) × World env). o.0) h',
        ap (λ (o : Result Raised (List Outcome) × World env). o.1) h',
      )
]

-- A batch that is enqueued with no exception had a job, and the server answered with one result for
-- each. Row by row, a job's message is its conversion, which keeps its own trace context and gets
-- the span's where it has none, and its entry in the list that is returned is read from the result
-- at its own place.
pub enqueue_batch-Rows :
    (env : Env) (client : Client env) (jobs : List EnqueueRequest) (w : World env)
    (outs : List Outcome) (w' : World env)
    → enqueue_batch env client jobs w ≡ (ok outs, w')
    → (jobs ≢ [])
      × (sent : List PbEnqueueRequest) × (results : List PbJobResult) × (transmit env client
            "sepp.enqueue" env.stub_enqueue_batch sent w
          ≡ (ok results, w'))
      × Rows
          (λ job s result out.
            IsSent env "sepp.enqueue" job s × (job_result_from_pb env.runtime result ≡ ok out))
          jobs
          sent
          results
          outs
unfolding enqueue_batch
enqueue_batch-Rows env client jobs w outs w' h =
    let x =
      send_jobs-Exchange env client "sepp.enqueue" env.stub_enqueue_batch jobs (read_batch env) w
        h in
    let sent = map (traced env "sepp.enqueue") x.converted in
    let (counted, read, still) = read_batch-ok env sent x.resp x.answered x.read in
    let rows =
      Rows-traverse (enqueue_request_to_pb env.runtime) (job_result_from_pb env.runtime) jobs
        x.converted x.resp outs x.made
        (counted ∙ length-map (traced env "sepp.enqueue") x.converted) read in
    (
      x.some_job,
      sent,
      x.resp,
      rw still at x.sent,
      Rows-map (traced env "sepp.enqueue") (λ job pb result out (e, e'). ((pb, e, refl), e')) rows,
    )

read_atomic-ok :
    (env : Env) (sent : List PbEnqueueRequest) (resp : PbEnqueueAtomicResponse) (w : World env)
    {acks : List EnqueueAck} {w' : World env}
    → read_atomic env sent resp w ≡ (ok acks, w')
    → (responses : List PbEnqueueResponse) × (resp ≡ PbEnqueueAtomicResponse.success responses)
      × (length responses ≡ length sent)
      × (acks ≡ map enqueue_ack_from_pb responses)
      × (w ≡ w')
unfolding read_atomic
read_atomic-ok env sent (PbEnqueueAtomicResponse.success responses) w h =
    elim (Bool-cases (length responses == length sent)) [
      | inr e ↦ cc (rw e at h)
      | inl e ↦
          let h' = rw e at h in
          (
            responses,
            refl,
            (==_iff _ _).0 e,
            sym (value-injective h'),
            ap (λ (o : Result Raised (List EnqueueAck) × World env). o.1) h',
          )
    ]
read_atomic-ok env sent (PbEnqueueAtomicResponse.rejection errors) w h =
    elim (Result-cases (traverse (job_validation_error_from_pb env.runtime) errors)) [
      | inl (errs, e) ↦ cc (rw e at h)
      | inr (r, e) ↦ cc (rw e at h)
    ]
read_atomic-ok env sent PbEnqueueAtomicResponse.unset w h = cc h

-- The same for an atomic enqueue that returns: the server accepted the batch as a whole, with one
-- response for each job, and the acknowledgement of a job is the response at its own place. The
-- job's message keeps its own trace context, and gets the span's where it has none.
pub enqueue_atomic-Rows :
    (env : Env) (client : Client env) (jobs : List EnqueueRequest) (w : World env)
    (acks : List EnqueueAck) (w' : World env)
    → enqueue_atomic env client jobs w ≡ (ok acks, w')
    → (jobs ≢ [])
      × (sent : List PbEnqueueRequest) × (responses : List PbEnqueueResponse) × (transmit env client
            "sepp.enqueue_atomic" env.stub_enqueue_atomic sent w
          ≡ (ok (PbEnqueueAtomicResponse.success responses), w'))
      × Rows
          (λ job s response a.
            IsSent env "sepp.enqueue_atomic" job s × (a ≡ enqueue_ack_from_pb response))
          jobs
          sent
          responses
          acks
unfolding enqueue_atomic
enqueue_atomic-Rows env client jobs w acks w' h =
    let x =
      send_jobs-Exchange env client "sepp.enqueue_atomic" env.stub_enqueue_atomic jobs
        (read_atomic env) w h in
    let sent = map (traced env "sepp.enqueue_atomic") x.converted in
    let (responses, accepted, counted, read, still) =
      read_atomic-ok env sent x.resp x.answered x.read in
    let rows =
      Rows-traverse (enqueue_request_to_pb env.runtime) (λ r. ok (enqueue_ack_from_pb r)) jobs
        x.converted responses acks x.made
        (counted ∙ length-map (traced env "sepp.enqueue_atomic") x.converted)
        (traverse-ok enqueue_ack_from_pb responses ∙ ap ok (sym read)) in
    (
      x.some_job,
      sent,
      responses,
      rw (still, accepted) at x.sent,
      Rows-map (traced env "sepp.enqueue_atomic") (λ job pb response a (e, e'). ((pb, e, refl), cc))
          rows,
    )
