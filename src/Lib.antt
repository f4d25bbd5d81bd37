-- ===== src/Lib.antt =====
-- A peer-to-peer message layer over ZeroMQ router sockets (dpn/). A process has a Peer; the peer has a
-- Hub; the hub has Ports, each with a socket; a port sends and receives packages of Messages, and the
-- peer puts a Label in front of each package. Interfaces handle the packages that arrive.
--
-- The state (State.antt) is one process: the heap of messages and the heap of ports, in which a pointer
-- is a number, the hub, the peer, and the world. A method is a function from the state to an outcome, a
-- result or an exception, both with the state that is left (Exec.antt). Methods that change an object
-- passed by reference return its new value.
--
-- Which file models which code:
--   Message    dpn/message/inc/Message.hpp, dpn/message/src/Message.cpp
--   Label      dpn/label/inc: Label.hpp, PushLabel.hpp, RequestLabel.hpp, PublishLabel.hpp;
--              Label/Layout is the memory of Label::Contents, which is what goes over the wire
--   Names      PortNameToSocketID, PortNameFromSocketID and TransportToString of dpn/port,
--              Hub::PortSpecification of dpn/hub, PeerIDtoHubName and HubNametoPeerID of dpn/peer
--   Port       dpn/port/inc/Port.hpp, dpn/port/src/Port.cpp
--   Hub        dpn/hub/inc/Hub.hpp, dpn/hub/src/Hub.cpp
--   Peer       dpn/peer/inc/Peer.hpp, dpn/peer/src/Peer.cpp; Peer/Defaults has the calls with the
--              arguments that Peer.hpp gives them when they are left out
--   Interface  dpn/interface/inc, and Peer::ServiceInterfaces
--   Context    dpn/context-manager/inc/ContextManager.hpp, dpn/context-manager/src/ContextManager.cpp;
--              it stands beside the state of the peer
--   Logger     dpn/util/inc/DPNLogger.hpp, dpn/util/src/DPNLogger.cpp, and the member logger_ of a peer,
--              over the calls of spdlog, which stand in a record of functions on an abstract state
--   Errors     dpn/util/inc/Error.hpp
--   Process    the calls that the user of a peer can make, one after the other, with changes of the
--              network in between, and what holds of the state between two of them
--   Zmq        the calls of cppzmq that the code makes, as a record of functions on an abstract world
--   Text       what the code uses of the standard library: getline, to_string, stoi
--   Prelude    lists, maps, tests and numbers that the files share
--   Examples   small concrete networks, in which the results are applied
-- The children of a module hold its lemmas and are named for what they prove.
--
-- How the parts interact: Peer.push writes the header into the label message, and Hub.send passes it
-- with the package to Port.send, which hands the frames to the socket. Hub.poll asks the poller which
-- port has an event; Peer.poll then has Hub.receive fill the label message and the package from that
-- port; Interface.service_interfaces finds the interface for which the label is, and a reply or a
-- subscription goes back into the peer.
--
-- Bounds and fuel: size_t sums wrap modulo 2 ^ 64 (Message.resize), the message id modulo 2 ^ 32, ids
-- have 16 bits, stoi is checked against the range of int and its result is cut to 16 bits. The memory of
-- Label::Contents is that of a little-endian machine with natural alignment. A receive has ten slots, as
-- the vector in the source. The only loop on fuel is Peer.request_loop: when the poller reports ports of
-- the hub, two more than the frames that sockets can hand over before the deadline are enough.
-- `catch (...)` catches exceptions only: undefined behaviour and a failed `assert` stop the run.
--
-- What is assumed of ZeroMQ stands in the theorems as hypotheses: Takes says that a socket takes some
-- frames in order, each of which leaves its message empty, Delivers that a socket hands them over,
-- Overflows that it hands over more than a number of them; Conforms (Process) that a send does not make a
-- message longer, Exclusive (Hub/Readding) that an address is bound once, Opens (Hub/Ports) that the
-- calls for a new port succeed, Routed (Peer/Routing) that a router fair-queues its senders and keeps the
-- messages of each in order, Deadline (Peer/Budget) that only so many frames come before a deadline. What
-- is assumed of spdlog is in Logger/Documented.
--
-- A frame is handed to a socket by value, as the bytes that the message exposes at the call. The source
-- gives ZeroMQ the buffer itself without a copy (Message.cpp, the constructor and Resize), so a later
-- write to a message can still change a frame that is queued: what a receiver reads then is not covered.
--
-- Not modelled: the lines that are logged and the heartbeat, which only print; the getters of fields;
-- TopicInterface.hpp (commented out), tests, the build files and the third-party libraries under
-- subprojects. The deletion of a port runs only its destructor's body, since no code deletes one.
-- Transports other than inproc abort, as in the source. The message that stands in a buffer is read
-- without regard to alignment.
pub mod Prelude
pub mod Exec
pub mod Text
pub mod Names
pub mod Zmq
pub mod State
pub mod Port
pub mod Hub
pub mod Peer
pub mod Interface
pub mod Errors
pub mod Logger
pub mod Process
pub mod Message
pub mod Label
pub mod Context
pub mod Examples
