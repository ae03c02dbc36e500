-- ===== src/Wire/Service.antt =====
-- src/sepp/v1/queue_pb2_grpc.py: the methods of the service as the client's stub calls them, and as
-- a server registers them.
pub mod Served
use sepp_py.Common.{String, List, [], ◌∷◌, Dict, Option, none, some, Result, err}
use sepp_py.Errors.Codes.{StatusCode, unimplemented}

-- The message classes of queue_pb2 that the file names.
pub data MessageClass : Type 0 where
  enqueue_batch_request enqueue_batch_response enqueue_atomic_response : MessageClass
  reserve_request reserve_response ack_request ack_response nack_request : MessageClass
  nack_response extend_request extend_response : MessageClass
  drain_dead_letters_request drain_dead_letters_response : MessageClass
  get_server_info_request get_server_info_response : MessageClass

-- The attributes of a stub, and the methods of a servicer.
pub data Method : Type 0 where
  enqueue_batch enqueue_atomic reserve ack nack extend drain_dead_letters get_server_info : Method

-- `channel.unary_unary(path, request_serializer=A.SerializeToString,
-- response_deserializer=B.FromString)`
pub record UnaryUnary : Type 0 where
  pub path : String
  pub request : MessageClass
  pub response : MessageClass

abbrev pub unary_unary : String → MessageClass → MessageClass → UnaryUnary
unary_unary path request response = record { path = path; request = request; response = response }

-- `QueueServiceStub.__init__`: what each attribute is set to.
unfoldable pub stub : Method → UnaryUnary
stub enqueue_batch =
    unary_unary "/sepp.v1.QueueService/EnqueueBatch" enqueue_batch_request enqueue_batch_response
stub enqueue_atomic =
    unary_unary "/sepp.v1.QueueService/EnqueueAtomic" enqueue_batch_request enqueue_atomic_response
stub reserve = unary_unary "/sepp.v1.QueueService/Reserve" reserve_request reserve_response
stub ack = unary_unary "/sepp.v1.QueueService/Ack" ack_request ack_response
stub nack = unary_unary "/sepp.v1.QueueService/Nack" nack_request nack_response
stub extend = unary_unary "/sepp.v1.QueueService/Extend" extend_request extend_response
stub drain_dead_letters =
    unary_unary "/sepp.v1.QueueService/DrainDeadLetters" drain_dead_letters_request
      drain_dead_letters_response
stub get_server_info =
    unary_unary "/sepp.v1.QueueService/GetServerInfo" get_server_info_request
      get_server_info_response

-- The static methods of `QueueService`, which call `grpc.experimental.unary_unary`.
unfoldable pub static_call : Method → UnaryUnary
static_call enqueue_batch =
    unary_unary "/sepp.v1.QueueService/EnqueueBatch" enqueue_batch_request enqueue_batch_response
static_call enqueue_atomic =
    unary_unary "/sepp.v1.QueueService/EnqueueAtomic" enqueue_batch_request enqueue_atomic_response
static_call reserve = unary_unary "/sepp.v1.QueueService/Reserve" reserve_request reserve_response
static_call ack = unary_unary "/sepp.v1.QueueService/Ack" ack_request ack_response
static_call nack = unary_unary "/sepp.v1.QueueService/Nack" nack_request nack_response
static_call extend = unary_unary "/sepp.v1.QueueService/Extend" extend_request extend_response
static_call drain_dead_letters =
    unary_unary "/sepp.v1.QueueService/DrainDeadLetters" drain_dead_letters_request
      drain_dead_letters_response
static_call get_server_info =
    unary_unary "/sepp.v1.QueueService/GetServerInfo" get_server_info_request
      get_server_info_response

-- What a method of a servicer may set on its `grpc.ServicerContext`.
pub record ServicerContext : Type 0 where
  pub code : Option StatusCode
  pub details : Option String

-- `NotImplementedError` with its text, or another exception of user code.
pub data ServicerError : Type 0 where
  not_implemented_error : (text : String) → ServicerError
  other_error : (text : String) → ServicerError

-- grpc and the protobuf runtime, third-party packages: messages and bytes, and which handler a
-- server finds for a path among those registered with a service.
pub record Grpc : Type 1 where
  pub Message : Type 0
  pub Bytes : Type 0
  pub IsOf : MessageClass → Message → Type 0
  pub serialize : MessageClass → Message → Bytes
  pub parse : MessageClass → Bytes → Option Message
  pub route : {H : Type 0} → (service : String) → Dict H → (path : String) → Option H

abbrev pub service_name : String
service_name = "sepp.v1.QueueService"

module _ (g : Grpc) where
  -- A method of a servicer: it answers or raises, and may set the status.
  abbrev pub Behavior : Type 0
  Behavior = g.Message → ServicerContext → Result ServicerError g.Message × ServicerContext

  abbrev pub Servicer : Type 0
  Servicer = Method → Behavior

  -- The methods of `QueueServiceServicer`, which all have the same body.
  unfoldable pub default_servicer : Servicer
  default_servicer m request context = (
    err (not_implemented_error "Method not implemented!"),
    record { code = some unimplemented; details = some "Method not implemented!" },
  )

  -- `grpc.unary_unary_rpc_method_handler(servicer.X, request_deserializer=A.FromString,
  -- response_serializer=B.SerializeToString)`
  pub record MethodHandler : Type 0 where
    pub behavior : Behavior
    pub request : MessageClass
    pub response : MessageClass

  abbrev pub method_handler : Behavior → MessageClass → MessageClass → MethodHandler
  method_handler behavior request response = record {
    behavior = behavior;
    request = request;
    response = response;
  }

  -- The dict of `add_QueueServiceServicer_to_server`.
  unfoldable pub rpc_method_handlers : Servicer → Dict MethodHandler
  rpc_method_handlers s =
      (
        "EnqueueBatch",
        method_handler (s enqueue_batch) enqueue_batch_request enqueue_batch_response,
      )
      ∷ (
        "EnqueueAtomic",
        method_handler (s enqueue_atomic) enqueue_batch_request enqueue_atomic_response,
      )
      ∷ ("Reserve", method_handler (s reserve) reserve_request reserve_response)
      ∷ ("Ack", method_handler (s ack) ack_request ack_response)
      ∷ ("Nack", method_handler (s nack) nack_request nack_response)
      ∷ ("Extend", method_handler (s extend) extend_request extend_response)
      ∷ (
        "DrainDeadLetters",
        method_handler (s drain_dead_letters) drain_dead_letters_request
            drain_dead_letters_response,
      )
      ∷ (
        "GetServerInfo",
        method_handler (s get_server_info) get_server_info_request get_server_info_response,
      )
      ∷ []

  -- The handler that a server with `add_QueueServiceServicer_to_server` finds for a path.
  unfoldable pub registered : Servicer → String → Option MethodHandler
  unfolding rpc_method_handlers
  registered s path = g.route service_name (rpc_method_handlers s) path
