-- ===== src/Client/Enqueue/Counts.antt =====
-- The results of a successful enqueue against its jobs.
use sepp_py.Common.{List, [], length, ok, ◌≡◌, ◌≢◌, refl, arith}
use sepp_py.Types.Requests.{EnqueueRequest, EnqueueAck}
use sepp_py.Client.Env.{Env}
use sepp_py.Client.Policy.{Client, World}
use sepp_py.Client.Enqueue.{Outcome, enqueue_batch, enqueue_atomic}
use sepp_py.Client.Enqueue.Exchange.{Rows, no_rows, row}
use sepp_py.Client.Enqueue.Rows.{enqueue_batch-Rows, enqueue_atomic-Rows}

Rows-length :
    {A B C D : Type 0} {R : A → B → C → D → Type 0} {xs : List A} {ys : List B} {zs : List C}
    {ws : List D}
    → Rows R xs ys zs ws
    → length ws ≡ length xs
Rows-length no_rows = refl
Rows-length (row r rest) = ground (arith, Rows-length rest)

-- A batch that is enqueued with no exception had a job, and gives one entry for each job.
pub enqueue_batch-counts :
    (env : Env) (client : Client env) (jobs : List EnqueueRequest) (w : World env)
    (outs : List Outcome) (w' : World env)
    → enqueue_batch env client jobs w ≡ (ok outs, w')
    → (jobs ≢ []) × (length outs ≡ length jobs)
enqueue_batch-counts env client jobs w outs w' h =
    let (some_job, sent, results, answered, rows) =
      enqueue_batch-Rows env client jobs w outs w' h in
    (some_job, Rows-length rows)

-- An atomic enqueue that returns had a job, and gives one acknowledgement for each job.
enqueue_atomic-counts :
    (env : Env) (client : Client env) (jobs : List EnqueueRequest) (w : World env)
    (acks : List EnqueueAck) (w' : World env)
    → enqueue_atomic env client jobs w ≡ (ok acks, w')
    → (jobs ≢ []) × (length acks ≡ length jobs)
enqueue_atomic-counts env client jobs w acks w' h =
    let (some_job, sent, responses, answered, rows) =
      enqueue_atomic-Rows env client jobs w acks w' h in
    (some_job, Rows-length rows)
