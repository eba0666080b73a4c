-- ===== src/Lib.antt =====
-- A model of GNS, a discrete-event network simulator in C++, and its proofs: the TCP endpoints, the
-- links and the topology below them, and the part of the engine that moves packets and opens sessions.
--
-- The program. core/ holds the simulator: core/src/engine runs a queue of timed events over a clock,
-- core/src/network holds the topology with its links and routing, and core/src/network/transport/tcp
-- holds TCP. A session has two endpoints, objects of class TCPConnection, which own their state
-- machine, their send and receive buffers, their loss detector, their retransmission timer and their
-- congestion control. The events of the engine call the endpoints; the endpoints build the segments
-- that the links carry. The engine owns the topology, the routing tables, the sessions, the listeners
-- and the event queue: sendPacket reserves a link, puts a transmission into its queue and schedules
-- the arrival, and the release at the arrival takes the transmission out again. app/ is the command
-- line program and the graphical interface.
--
-- The files. Paths of the code are below core/include/network/transport/tcp and
-- core/src/network/transport/tcp where no other directory is named.
--   Base                     shared names, Boolean tests on numbers, lists, words and doubles
--   Tcp/StateMachine         TCPStateMachine.hpp and core/include/enums/TCPState.hpp: on_listen for
--                            onListen, and so on; Diagram is the transition diagram
--   Tcp/Segment              TCPSegment.hpp, and inferPacketType of core/include/network/Packet.hpp
--   Tcp/SendBuffer           buffer/TCPSendBuffer and buffer/TCPSendEntry
--   Tcp/ReceiveBuffer        buffer/TCPReceiveBuffer and buffer/TCPReceiveEntry
--   Tcp/LossDetector         recovery/TCPLossDetector
--   Tcp/Timer                timer/RTTEstimator and timer/RTOManager
--   Tcp/Congestion           congestion/: Tahoe, Reno, NewReno and Cubic are the four classes, Window
--                            the arithmetic that they repeat, Congestion itself the abstract class and
--                            the factory, Notices a history of calls through the interface
--   Tcp/Connection           TCPConnection: the object, its constructor and its segments; Handshake has
--                            the opening and the close, Sending the send window, the acknowledgements
--                            and the retransmissions, Receiving the data that arrives,
--                            Calls the calls that the events and the listener make at an endpoint
--   Tcp/Session              TCPSession: the two endpoints, their joint state and the counters
--   Tcp/Listener             TCPListener, but for accept, which works on the engine
--   Network/Link             core/src/network/Link.cpp and Link.hpp: Queue has the queues, Medium the
--                            times at which a direction is free
--   Network/Node             Node.hpp and Interface.hpp of core/include/network
--   Network/Topology         core/src/network/Topology.cpp and Topology.hpp; Spec says what a
--                            well-formed topology is: the adjacency lists and the interfaces are
--                            functions of the list of links
--   Network/Packet           Packet.hpp and PacketTravelInfo.hpp of core/include/network
--   Network/Routing          the metrics and the table entries of core/include/network/Routing.hpp
--   Engine/EventQueue        EventQueue, Event and SimulationClock of core/src/engine/core and
--                            core/include/engine/core
--   Engine/Simulation        SimulationEngine of the same directories: the state; Packets has
--                            sendPacket, Transport core/src/network/utils/PacketUtils.cpp, Sessions
--                            the sessions and the listeners, with TCPListener::accept
--   Engine/Timeouts          the events of core/src/engine/events that open a connection and that
--                            retransmit: execute_handshake is TCPHandshakeEvent::execute, and so on
--   Engine/Departures        the events that close, acknowledge late, retransmit fast and generate
--                            packets
-- The other modules below these hold proofs, each named for what it is about, and Tcp/Examples,
-- Network/Examples and Engine/Examples the instances of the theorems on concrete data.
--
-- The correspondence. An object is a record of its members, and a method that changes it a function
-- that returns the new record, paired with the result if there is one. A name of the code is written
-- in snake case (receiveData or receive_data is receive_data); types keep their words (TCPConnection
-- is TcpConnection). A std::deque or std::vector is a list with the front first, an enumeration a data
-- type, a std::optional an Option, a constructor that throws an Option that is none. An unsigned word
-- is a natural number whose wrap-around is written out (% 2 ^ 32, % 2 ^ 64 for size_t); the operations
-- of Base.Words do this. An int that is a node number is an integer of Base.Ints, with the -1 of the
-- code; a counter of packets or bytes of type int is a natural number, and no int overflows. The
-- abstract class of the congestion controls is a sum of the four classes.
--
-- Doubles. The type double is a parameter: Base.Floats.Float is the interface of the operations that
-- the code uses, over any carrier, so that the definitions run on any instance of it. Only the
-- theorems on the timer and on the event queue need laws of it: the record FloatLaws of Tcp.Timer.Laws
-- states facts of IEEE 754 arithmetic on the constants involved, and the record FloatOrder of
-- Engine.EventQueue.Laws that the finite doubles are totally ordered. Tcp.Examples.Fractions satisfies
-- the first with exact fractions, Engine.Examples the second with whole numbers.
--
-- Containers and pointers. The priority queue of the events is the list of its elements in the order
-- in which it gives them out. A std::map is an association list with distinct keys. A shared_ptr to a
-- link is the number of the link, which the constructor never gives twice before its counter of 64
-- bits wraps; the object is in the list of links of the topology. A reference that a caller changes is
-- an argument, returned changed and stored back.
--
-- Loops. Every loop of the code walks once along a buffer and is structural recursion on the list, so
-- that nothing runs on fuel. The bounds in the theorems are those of the machine words: a history of
-- fewer than 2 ^ 32 acknowledgements, a receive capacity below 2 ^ 64, sequence numbers that have not
-- reached 2 ^ 32 where the code compares them as plain numbers.
--
-- Not modelled. Dijkstra's algorithm, PacketReceivedEvent, LinkFailureEvent and the run loop, and the
-- engine's calls that rebuild the routing tables are not part of this development yet; the routing
-- tables are a field of the engine. The random numbers, the initial sequence number and the draw that
-- loses a packet, are arguments. The observers of the engine and of a listener, the display names, and
-- the CSV export are left out. Plain getters are the fields of the records. The program and the
-- interface under app/ are input and output.
pub mod Base
pub mod Tcp
pub mod Engine
pub mod Network
