-- ===== src/Wire/Service/Served.antt =====
-- The calls of a stub, at a server with the generated registration.
use Prim.Native.String
use sepp_py.Common.{String, Dict, get, some, ◌≡◌, ◌∙◌, refl}
use sepp_py.Wire.Service.{
  MessageClass, Method, enqueue_batch, enqueue_atomic, reserve, ack, nack, extend,
  drain_dead_letters, get_server_info, UnaryUnary, stub, static_call, Grpc, Servicer, MethodHandler,
  service_name, rpc_method_handlers, registered,
}

-- The documented behaviour that the theorem uses: the path of a method is "/service/method", and a
-- message class reads back what it wrote.
pub record IsLawful (g : Grpc) : Type 1 where
  pub routes :
      {H : Type 0} (service name : String) (handlers : Dict H)
      → g.route service handlers (String.◌++◌ "/" (String.◌++◌ service (String.◌++◌ "/" name)))
        ≡ get name handlers
  pub parses :
      (k : MessageClass) (m : g.Message) → g.IsOf k m → g.parse k (g.serialize k m) ≡ some m

-- The handler calls the servicer's method, reads the requests that the call writes, and writes the
-- responses that the call reads.
pub record IsServedBy (g : Grpc) (s : Servicer g) (m : Method) (u : UnaryUnary)
    (h : MethodHandler g) : Type 0 where
  pub behavior : h.behavior ≡ s m
  pub requests :
      (req : g.Message)
      → g.IsOf u.request req
      → g.parse h.request (g.serialize u.request req) ≡ some req
  pub responses :
      (resp : g.Message)
      → g.IsOf h.response resp
      → g.parse u.response (g.serialize h.response resp) ≡ some resp

module _ (g : Grpc) (lawful : IsLawful g) (s : Servicer g) where
  -- A server that registers the servicer finds a handler for the path of a call, and it serves it.
  abbrev pub Serves : Method → UnaryUnary → Type 0
  Serves m u = (h : MethodHandler g) × (registered g s u.path ≡ some h) × IsServedBy g s m u h

  -- An entry of the dict, under the name in the path and with the same message classes.
  entry-Serves :
      (m : Method) (u : UnaryUnary) (name : String) (h : MethodHandler g)
      → get name (rpc_method_handlers g s) ≡ some h
      → u.path ≡ String.◌++◌ "/" (String.◌++◌ service_name (String.◌++◌ "/" name))
      → h ≡ record { behavior = s m; request = u.request; response = u.response }
      → Serves m u
  unfolding registered
  entry-Serves m u name h found path same = (
    h,
    rw (path, registered) (lawful.routes service_name name (rpc_method_handlers g s) ∙ found),
    rw same (record {
      behavior = refl;
      requests = lawful.parses u.request;
      responses = lawful.parses u.response;
    }),
  )

  stub-Serves : (m : Method) → Serves m (stub m)
  unfolding stub rpc_method_handlers
  stub-Serves enqueue_batch = entry-Serves enqueue_batch _ "EnqueueBatch" _ refl refl refl
  stub-Serves enqueue_atomic = entry-Serves enqueue_atomic _ "EnqueueAtomic" _ refl refl refl
  stub-Serves reserve = entry-Serves reserve _ "Reserve" _ refl refl refl
  stub-Serves ack = entry-Serves ack _ "Ack" _ refl refl refl
  stub-Serves nack = entry-Serves nack _ "Nack" _ refl refl refl
  stub-Serves extend = entry-Serves extend _ "Extend" _ refl refl refl
  stub-Serves drain_dead_letters =
      entry-Serves drain_dead_letters _ "DrainDeadLetters" _ refl refl refl
  stub-Serves get_server_info = entry-Serves get_server_info _ "GetServerInfo" _ refl refl refl

  static-stub : (m : Method) → static_call m ≡ stub m
  unfolding static_call stub
  static-stub enqueue_batch = refl
  static-stub enqueue_atomic = refl
  static-stub reserve = refl
  static-stub ack = refl
  static-stub nack = refl
  static-stub extend = refl
  static-stub drain_dead_letters = refl
  static-stub get_server_info = refl

  -- At a server that registers the servicer, each attribute of a stub, and each static method of
  -- QueueService, reaches the method of its own name: there is a handler for its path, which calls
  -- that method, reads back the requests that the call writes, and writes responses that the call
  -- reads back. Asked of grpc and protobuf: the path is "/service/method", and a message class
  -- reads back what it wrote.
  pub registered-Serves : (m : Method) → Serves m (stub m) × Serves m (static_call m)
  registered-Serves m = (stub-Serves m, rw (static-stub m) (stub-Serves m))
