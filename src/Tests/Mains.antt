-- ===== src/Tests/Mains.antt =====
-- The theorems on the loops of the clients at concrete data.
use shelter_server.Prelude.{text, true, false}
use shelter_server.TcpClient.Session.{handle_user_input}
use shelter_server.TcpClient.Requests.{AreOffered, handle_user_input-AreOffered}
use shelter_server.UdpClient.Requests.{AllSent, rounds-requests}
use shelter_server.UdpClient.Session.{rounds}
use shelter_server.Tests.{json}
use shelter_server.Tests.Clients.{inputs}

handle_user_input-AreOffered_example :
    AreOffered json true (handle_user_input json true 40 inputs).sent
handle_user_input-AreOffered_example = handle_user_input-AreOffered json true 40 inputs

rounds-requests_example :
    AllSent json (text "ubuntu") (rounds json false (text "ubuntu") 40 inputs).sent
rounds-requests_example = rounds-requests json false (text "ubuntu") 40 inputs
